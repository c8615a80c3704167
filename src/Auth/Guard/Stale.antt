-- ===== src/Auth/Guard/Stale.antt =====
-- The guards of the other services and a user who has logged out.
use technical_assignment.Auth.Password.{Host}
use technical_assignment.Auth.Db.{Db, UserRow, RefreshTokenRow, with_user_id}
use technical_assignment.Auth.Sessions.{find_by_raw, revoke, revoke_all_for_user, token_row}
use technical_assignment.Auth.Users.{user_row, bump_token_version, record_audit}
use technical_assignment.Auth.Controller.{Request, logout, logout_all, no_content_204}
use technical_assignment.Auth.Controller.Refresh.{IsSteady}
use technical_assignment.Auth.Guard.{Jwt, can_activate, authenticated, bearer, sign_token}
use technical_assignment.Auth.Guard.Access.{signed_token_accepted}
use technical_assignment.Contracts.{TraceId}
use technical_assignment.Common.{
  ℕ, suc, Text, ◌++◌, Option, some, ◌+◌, ◌<◌, ltb, ◌≡◌, refl, arith, first_row-after_update,
  first_row-select, true,
}

-- Over steady connections both ways to log out raise the version of the user to whom the refresh
-- token belongs, and yet an access token that was signed for the user before is let through by the
-- seat and the payment service, with its old version, until its time to live is over.
pub tokens_outlive_logout :
    (host : Host) (jwt : Jwt) (secret : Text) (ttl iat at_s : ℕ) (trace : Option TraceId) (raw : ℕ)
    (q : Request) (d : Db) {row : RefreshTokenRow} {u : UserRow}
    → IsSteady q
    → token_row host raw d ≡ some row
    → user_row row.user_id d ≡ some u
    → at_s < iat + ttl
    → let one = logout host (some raw) q d in
      let all = logout_all host (some raw) q d in
      let raised = record u { token_version = suc u.token_version } in
      (one.response ≡ no_content_204)
      × (user_row row.user_id one.db ≡ some raised)
      × (all.response ≡ no_content_204)
      × (user_row row.user_id all.db ≡ some raised)
      × (can_activate jwt secret at_s (some (bearer ++ sign_token jwt secret ttl iat u)) trace
          ≡ authenticated (record {
            user_id = u.id;
            email = u.email;
            token_version = u.token_version;
            trace_id = trace;
          }))
unfolding logout logout_all find_by_raw revoke revoke_all_for_user bump_token_version record_audit
tokens_outlive_logout host jwt secret ttl iat at_s trace raw q d {row} {u} hs found user young =
    let bumped =
      first_row-after_update (with_user_id row.user_id) (with_user_id row.user_id)
        (λ v. record v { token_version = suc v.token_version }) d.users {h = u} (λ x. refl) user in
    let named : with_user_id row.user_id u ≡ true =
      first_row-select (with_user_id row.user_id) d.users user in
    let unexpired : ltb at_s (iat + ttl) ≡ true = ground arith in
    rw
      (
        hs 0,
        found,
        hs 1,
        hs 2,
        hs 3,
        bumped,
        named,
        signed_token_accepted jwt secret ttl iat at_s u trace,
        unexpired,
      )
      (refl, refl, refl, refl, refl)
