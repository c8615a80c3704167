-- ===== src/Auth/Controller/Refresh.antt =====
-- What the refresh cookie is worth, over connections that hold.
use technical_assignment.Auth.Password.{Host}
use technical_assignment.Auth.Sessions.Chains.{IsFresh, rotate_outcome, apart_ids}
use technical_assignment.Auth.Db.{
  Db, RefreshTokenRow, UserRow, with_token_id, live_in_family, revoked_row, with_hash, live_of_user,
  with_user_id,
}
use technical_assignment.Auth.Users.{find_by_id, record_audit, user_row, bump_token_version}
use technical_assignment.Auth.Sessions.{
  find_by_raw, revoke_family, Env, token_row, new_token, rotated_row, revoke_all_for_user,
}
use technical_assignment.Common.{
  ◌∷◌, ◌++◌, [], ◌+◌, ◌*◌, ◌≡◌, refl, ℕ, steady, some, first_row, ◌<◌, select, false, none,
  count_where, ◌≤◌, ◌+◌, leb, ◌*◌, arith, count_where-update_where-zero, true,
  first_row-after_update, ◌++◌, ◌∷◌, first_row-select-append, ==_refl, first_row-select-last,
  count_where-first_row, exists_where-count, ◌∙◌, suc, first_row-select,
}
use technical_assignment.Auth.Controller.{
  refresh, Request, Db, RefreshTokenRow, UserRow, some, in_grace, false, reuse_detected_401, none,
  cleared, leb, tokens_200, sign_access_token, set_to, untouched, true, logout_all,
  revoke_all_for_user, bump_token_version, no_content_204, Host,
}

abbrev pub IsSteady : Request → Type 0
IsSteady q = (n : ℕ) → q.links n ≡ steady

-- Over steady connections a token that was revoked, is past its grace period and has not expired is
-- refused, the cookie is cleared, and the attempt leaves no unrevoked token in its family.
pub reuse_revokes_family :
    (host : Host) (env : Env) (raw : ℕ) (q : Request) (d : Db) {row : RefreshTokenRow} {t : ℕ}
    → IsSteady q
    → token_row host raw d ≡ some row
    → q.draw.date < row.expires_at
    → row.revoked_at ≡ some t
    → in_grace row.grace_until q.draw.date ≡ false
    → let h = refresh host env (some raw) q d in
      (h.response ≡ reuse_detected_401)
      × (h.cookie ≡ cleared)
      × (count_where (live_in_family row.family_id) h.db.tokens ≡ 0)
unfolding refresh find_by_raw revoke_family record_audit
reuse_revokes_family host env raw q d {row} {t} hs found young revoked late =
    let unexpired : leb row.expires_at q.draw.date ≡ false = ground arith in
    rw (hs 0, found, unexpired, revoked, late, hs 1, hs 2)
      (
        refl,
        refl,
        count_where-update_where-zero (live_in_family row.family_id) (live_in_family row.family_id)
            (revoked_row q.draw.now) d.tokens (λ x h. ground arith) (λ x h. h),
      )

-- Over steady connections, and where the new id and the hash of the new token are in no row, an
-- unrevoked token that has not expired is exchanged for a new one: the access token carries the
-- user's version, the cookie is the new token, whose row is in the table, of the same user and
-- family; and the same request sent again with the old cookie within the grace period, a network
-- retry, is given an access token for the same user, email and version, and the refresh tokens stay
-- as they are.
pub refresh_and_retry :
    (host : Host) (env : Env) (raw : ℕ) (q q' : Request) (d : Db) {row : RefreshTokenRow}
    {u : UserRow}
    → IsSteady q
    → IsSteady q'
    → token_row host raw d ≡ some row
    → first_row (select (with_token_id row.id) d.tokens) ≡ some row
    → q.draw.date < row.expires_at
    → q'.draw.date < row.expires_at
    → row.revoked_at ≡ none
    → user_row row.user_id d ≡ some u
    → IsFresh host q.draw d
    → q'.draw.date ≤ q.draw.date + env.rt_grace_seconds * 1000
    → let first = refresh host env (some raw) q d in
      let retry = refresh host env (some raw) q' first.db in
      (first.response ≡ tokens_200 (sign_access_token u))
      × (first.cookie ≡ set_to q.draw.raw)
      × (token_row host q.draw.raw first.db
          ≡ some (new_token host env q.draw row.user_id row.family_id))
      × (retry.response ≡ tokens_200 (sign_access_token u))
      × (retry.cookie ≡ untouched)
      × (retry.db.tokens ≡ first.db.tokens)
unfolding refresh find_by_raw find_by_id record_audit
refresh_and_retry host env raw q q' d {row} {u} hs hs' found by_id young young' active user fresh
      grace =
    let unexpired : leb row.expires_at q.draw.date ≡ false = ground arith in
    let unexpired' : leb row.expires_at q'.draw.date ≡ false = ground arith in
    let in_time : leb q'.draw.date (q.draw.date + env.rt_grace_seconds * 1000) ≡ true =
      ground arith in
    let new = new_token host env q.draw row.user_id row.family_id in
    let f = rotated_row q.draw.now q.draw.id (q.draw.date + env.rt_grace_seconds * 1000) in
    let out = rotate_outcome host env q.draw d by_id fresh in
    let old_later =
      first_row-after_update (with_hash (host.sha256 raw)) (with_token_id row.id) f
        (d.tokens ++ new ∷ []) {h = row} (λ x. refl)
        (first_row-select-append (with_hash (host.sha256 raw)) d.tokens (new ∷ []) found) in
    let new_later =
      first_row-after_update (with_hash (host.sha256 q.draw.raw)) (with_token_id row.id) f
        (d.tokens ++ new ∷ []) {h = new} (λ x. refl)
        (first_row-select-last (with_hash (host.sha256 q.draw.raw)) d.tokens new
          (count_where-first_row (with_hash (host.sha256 q.draw.raw)) d.tokens
            (exists_where-count (with_hash (host.sha256 q.draw.raw)) d.tokens fresh.1))
          (unfold new_token in ==_refl (host.sha256 q.draw.raw))) in
    rw
      (
        hs 0,
        found,
        unexpired,
        active,
        hs 1,
        user,
        hs 2,
        out,
        hs 3,
        hs' 0,
        old_later,
        ==_refl row.id,
        unexpired',
        in_time,
        hs' 1,
        user,
        hs' 2,
      )
      (
        refl,
        refl,
        new_later
            ∙ (unfold new_token in rw (apart_ids d.tokens row.id q.draw.id by_id fresh.0) refl),
        refl,
        refl,
        refl,
      )

-- Over steady connections, after `logout-all` with a token that is revoked, is in its grace period
-- and has not expired, that same token still obtains an access token, and one that carries the
-- user's new version.
pub logout_all_spares_grace :
    (host : Host) (env : Env) (raw : ℕ) (q q' : Request) (d : Db) {row : RefreshTokenRow}
    {u : UserRow} {t : ℕ}
    → IsSteady q
    → IsSteady q'
    → token_row host raw d ≡ some row
    → q'.draw.date < row.expires_at
    → row.revoked_at ≡ some t
    → in_grace row.grace_until q'.draw.date ≡ true
    → user_row row.user_id d ≡ some u
    → let out = logout_all host (some raw) q d in
      (out.response ≡ no_content_204)
      × ((refresh host env (some raw) q' out.db).response
          ≡ tokens_200 (record { sub = u.id; email = u.email; tv = suc u.token_version }))
unfolding refresh find_by_raw find_by_id record_audit logout_all revoke_all_for_user
    bump_token_version sign_access_token
logout_all_spares_grace host env raw q q' d {row} {u} {t} hs hs' found young revoked grace user =
    let unexpired : leb row.expires_at q'.draw.date ≡ false = ground arith in
    let kept =
      first_row-after_update (with_hash (host.sha256 raw)) (live_of_user row.user_id)
        (revoked_row q.draw.now) d.tokens {h = row} (λ x. refl) found in
    let spared : live_of_user row.user_id row ≡ false = ground (arith, revoked) in
    let bumped =
      first_row-after_update (with_user_id row.user_id) (with_user_id row.user_id)
        (λ v. record v { token_version = suc v.token_version }) d.users {h = u} (λ x. refl) user in
    let named : with_user_id row.user_id u ≡ true =
      first_row-select (with_user_id row.user_id) d.users user in
    rw
      (
        hs 0,
        found,
        hs 1,
        hs 2,
        hs 3,
        hs' 0,
        kept,
        spared,
        unexpired,
        revoked,
        grace,
        hs' 1,
        bumped,
        named,
        hs' 2,
      )
      (refl, refl)
