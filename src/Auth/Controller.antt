-- ===== src/Auth/Controller.antt =====
-- apps/auth/src/auth/auth.controller.ts: `refresh`, `logout` and `logoutAll` of `AuthController`,
-- and the claims that `JwtService.signAccessToken` signs (auth/jwt.service.ts). A handler sends its
-- statements one by one to the pool: `links` gives the connection of each in turn.
pub mod Refresh
pub mod Owner
pub mod Traced
use technical_assignment.Auth.Password.{Host}
use technical_assignment.Contracts.{TraceId}
use technical_assignment.Common.{
  ℕ, Option, none, some, Result, Bool, Link, false, if◌then◌else◌, ok, true, leb, err,
  unique_violation,
}
use technical_assignment.Auth.Db.{Db, UserRow, AuditAction, RefreshTokenRow, AuditMeta}
use technical_assignment.Auth.Users.{
  find_by_email, create, find_by_id, record_audit, bump_token_version,
}
use technical_assignment.Auth.Sessions.{
  Env, Draw, find_by_raw, rotate, revoke_family, revoke, issue_new_family, revoke_all_for_user,
}

pub record AccessTokenClaims : Type 0 where
  pub sub : ℕ
  pub email : ℕ
  pub tv : ℕ

-- What happens to the refresh cookie.
pub data Cookie : Type 0 where
  untouched cleared : Cookie
  set_to : ℕ → Cookie

pub data Response : Type 0 where
  tokens_200 : AccessTokenClaims → Response
  registered_201 : ℕ → Response
  no_content_204 : Response
  no_refresh_token_401 invalid_refresh_token_401 expired_refresh_token_401 : Response
  user_not_found_401 reuse_detected_401 invalid_credentials_401 : Response
  email_already_registered_400 : Response
  internal_error_500 : Response

pub record Handled : Type 0 where
  pub response : Response
  pub cookie : Cookie
  pub db : Db

-- One request: its trace, its address, and what it draws and reads.
pub record Request : Type 0 where
  pub trace_id : TraceId
  pub ip : Option ℕ
  pub links : ℕ → Link
  pub draw : Draw

abbrev pub plain_meta : Request → AuditMeta
plain_meta q = record {
  trace_id = q.trace_id;
  ip = none;
  accepted = none;
  grace = none;
  reuse_detected = false;
}

abbrev pub answer_with : Response → Cookie → Db → Handled
answer_with r c d = record { response = r; cookie = c; db = d }

-- An error that no handler catches is answered with 500; the cookie may be set by then.
abbrev pub and_then : {A : Type 0} → Cookie → Result A × Db → (A → Db → Handled) → Handled
and_then c (ok a, d) k = k a d
and_then c (err e, d) k = answer_with internal_error_500 c d

-- The claims that the code signs. The token has iat and exp too, by the clock of its signing: two
-- answers with one value here may carry different tokens.
unfoldable pub sign_access_token : UserRow → AccessTokenClaims
sign_access_token u = record { sub = u.id; email = u.email; tv = u.token_version }

-- Branch 1: active (not revoked) → rotate.
rotate_for : Host → Env → RefreshTokenRow → Request → Option UserRow → Db → Handled
rotate_for host env row q none d = answer_with user_not_found_401 untouched d
rotate_for host env row q (some u) d =
    and_then untouched (rotate host env q.draw row.id (q.links 2) d) (λ new d'.
      and_then (set_to q.draw.raw)
        (record_audit (some u.id) AuditAction.refresh (plain_meta q) q.draw.now (q.links 3) d')
        (λ t d''. answer_with (tokens_200 (sign_access_token u)) (set_to q.draw.raw) d''))

-- Branch 2: revoked but within grace window → accept as network retry, no rotation.
accept_retry : Request → Option UserRow → Db → Handled
accept_retry q none d = answer_with user_not_found_401 untouched d
accept_retry q (some u) d =
    and_then untouched
      (record_audit (some u.id) AuditAction.refresh (record (plain_meta q) { grace = some true })
        q.draw.now (q.links 2) d)
      (λ t d'. answer_with (tokens_200 (sign_access_token u)) untouched d')

-- Branch 3: revoked past grace → theft detected. Revoke entire family.
detect_reuse : RefreshTokenRow → Request → Db → Handled
detect_reuse row q d =
    and_then untouched (revoke_family row.family_id q.draw.now (q.links 1) d) (λ t d'.
      and_then untouched
        (record_audit (some row.user_id) AuditAction.session_revoke
          (record (plain_meta q) { reuse_detected = true }) q.draw.now (q.links 2) d')
        (λ t' d''. answer_with reuse_detected_401 cleared d''))

-- row.grace_until && now <= row.grace_until.getTime()
abbrev pub in_grace : Option ℕ → ℕ → Bool
in_grace none date = false
in_grace (some g) date = leb date g

by_state : Host → Env → RefreshTokenRow → Request → Option ℕ → Db → Handled
unfolding rotate_for accept_retry detect_reuse
by_state host env row q none d =
    and_then untouched (find_by_id row.user_id (q.links 1) d) (rotate_for host env row q)
by_state host env row q (some t) d =
    if in_grace row.grace_until q.draw.date
    then and_then untouched (find_by_id row.user_id (q.links 1) d) (accept_retry q)
    else detect_reuse row q d

refresh_row : Host → Env → Request → Option RefreshTokenRow → Db → Handled
unfolding by_state
refresh_row host env q none d = answer_with invalid_refresh_token_401 untouched d
refresh_row host env q (some row) d =
    if leb row.expires_at q.draw.date
    then answer_with expired_refresh_token_401 untouched d
    else by_state host env row q row.revoked_at d

-- POST refresh, with the cookie's value.
unfoldable pub refresh : Host → Env → Option ℕ → Request → Db → Handled
unfolding refresh_row
refresh host env none q d = answer_with no_refresh_token_401 untouched d
refresh host env (some raw) q d =
    and_then untouched (find_by_raw host raw (q.links 0) d) (refresh_row host env q)

-- The end of both logouts: the version is bumped, the audit written and the cookie cleared.
end_session : AuditAction → RefreshTokenRow → Request → Db → Handled
end_session action row q d =
    and_then untouched (bump_token_version row.user_id (q.links 2) d) (λ t d'.
      and_then untouched
        (record_audit (some row.user_id) action (plain_meta q) q.draw.now (q.links 3) d')
        (λ t' d''. answer_with no_content_204 cleared d''))

logout_row : Request → Option RefreshTokenRow → Db → Handled
unfolding end_session
logout_row q none d = answer_with no_content_204 cleared d
logout_row q (some row) d =
    and_then untouched (revoke row.id q.draw.now (q.links 1) d)
      (λ t. end_session AuditAction.logout row q)

-- POST logout
unfoldable pub logout : Host → Option ℕ → Request → Db → Handled
unfolding logout_row
logout host none q d = answer_with no_content_204 cleared d
logout host (some raw) q d = and_then untouched (find_by_raw host raw (q.links 0) d) (logout_row q)

logout_all_row : Request → Option RefreshTokenRow → Db → Handled
unfolding end_session
logout_all_row q none d = answer_with no_content_204 cleared d
logout_all_row q (some row) d =
    and_then untouched (revoke_all_for_user row.user_id q.draw.now (q.links 1) d)
      (λ t. end_session AuditAction.logout_all row q)

-- POST logout-all
unfoldable pub logout_all : Host → Option ℕ → Request → Db → Handled
unfolding logout_all_row
logout_all host none q d = answer_with no_content_204 cleared d
logout_all host (some raw) q d =
    and_then untouched (find_by_raw host raw (q.links 0) d) (logout_all_row q)
