-- ===== src/Auth/Controller/Traced.antt =====
-- POST refresh and both logouts write by the steps of Auth/Traces alone.
use technical_assignment.Auth.Traces.{
  Reach, next, here, audits, bumps, rotates, revokes, revokes_family, revokes_all, and_then-Reach,
  read-Reach,
}
use technical_assignment.Auth.Password.{Host}
use technical_assignment.Auth.Db.{Db, UserRow, RefreshTokenRow, AuditAction}
use technical_assignment.Auth.Users.{find_by_id, user_row, record_audit, bump_token_version}
use technical_assignment.Auth.Sessions.{
  Env, find_by_raw, token_row, rotate, revoke, revoke_family, revoke_all_for_user,
}
use technical_assignment.Auth.Controller.{
  Request, untouched, set_to, plain_meta, rotate_for, accept_retry, detect_reuse, by_state,
  in_grace, refresh_row, refresh, end_session, logout_row, logout, logout_all_row, logout_all,
}
use technical_assignment.Common.{ℕ, Option, none, some, Bool-cases, inl, inr, leb}

module _ (host : Host) (env : Env) (q : Request) {d : Db} where
  rotate_for-Reach :
      (row : RefreshTokenRow) (u : Option UserRow) (e : Db)
      → Reach host env d e
      → Reach host env d (rotate_for host env row q u e).db
  unfolding rotate_for
  rotate_for-Reach row none e r = r
  rotate_for-Reach row (some u) e r =
      and_then-Reach host env untouched (rotate host env q.draw row.id (q.links 2) e) _
        (next r (rotates q.draw row.id (q.links 2)))
        (λ new f s.
          and_then-Reach host env (set_to q.draw.raw)
            (record_audit (some u.id) AuditAction.refresh (plain_meta q) q.draw.now (q.links 3) f) _
            (next s (audits _ _ _ _ _)) (λ t g s'. s'))

  accept_retry-Reach :
      (u : Option UserRow) (e : Db) → Reach host env d e → Reach host env d (accept_retry q u e).db
  unfolding accept_retry
  accept_retry-Reach none e r = r
  accept_retry-Reach (some u) e r =
      and_then-Reach host env untouched (record_audit _ _ _ _ _ e) _ (next r (audits _ _ _ _ _))
        (λ t g s. s)

  detect_reuse-Reach :
      (row : RefreshTokenRow) (e : Db)
      → Reach host env d e
      → Reach host env d (detect_reuse row q e).db
  unfolding detect_reuse
  detect_reuse-Reach row e r =
      and_then-Reach host env untouched (revoke_family row.family_id q.draw.now (q.links 1) e) _
        (next r (revokes_family row.family_id q.draw.now (q.links 1)))
        (λ t f s.
          and_then-Reach host env untouched (record_audit _ _ _ _ _ f) _ (next s (audits _ _ _ _ _))
            (λ t' g s'. s'))

  by_state-Reach :
      (row : RefreshTokenRow) (revoked : Option ℕ) (e : Db)
      → Reach host env d e
      → Reach host env d (by_state host env row q revoked e).db
  unfolding by_state find_by_id
  by_state-Reach row none e r =
      and_then-Reach host env untouched (find_by_id row.user_id (q.links 1) e) _
        (read-Reach host env (user_row row.user_id) (q.links 1) e r)
        (λ u f. rotate_for-Reach row u f)
  by_state-Reach row (some t) e r = elim (Bool-cases (in_grace row.grace_until q.draw.date)) [
    | inl grace ↦ rw grace (
        and_then-Reach host env untouched (find_by_id row.user_id (q.links 1) e) _
          (read-Reach host env (user_row row.user_id) (q.links 1) e r)
          (λ u f. accept_retry-Reach u f))
    | inr late ↦ rw late (detect_reuse-Reach row e r)
  ]

  refresh_row-Reach :
      (found : Option RefreshTokenRow) (e : Db)
      → Reach host env d e
      → Reach host env d (refresh_row host env q found e).db
  unfolding refresh_row
  refresh_row-Reach none e r = r
  refresh_row-Reach (some row) e r = elim (Bool-cases (leb row.expires_at q.draw.date)) [
    | inl old ↦ rw old r
    | inr young ↦ rw young (by_state-Reach row row.revoked_at e r)
  ]

  end_session-Reach :
      (action : AuditAction) (row : RefreshTokenRow) (e : Db)
      → Reach host env d e
      → Reach host env d (end_session action row q e).db
  unfolding end_session
  end_session-Reach action row e r =
      and_then-Reach host env untouched (bump_token_version row.user_id (q.links 2) e) _
        (next r (bumps row.user_id (q.links 2)))
        (λ t f s.
          and_then-Reach host env untouched (record_audit _ _ _ _ _ f) _ (next s (audits _ _ _ _ _))
            (λ t' g s'. s'))

  logout_row-Reach :
      (found : Option RefreshTokenRow) (e : Db)
      → Reach host env d e
      → Reach host env d (logout_row q found e).db
  unfolding logout_row
  logout_row-Reach none e r = r
  logout_row-Reach (some row) e r =
      and_then-Reach host env untouched (revoke row.id q.draw.now (q.links 1) e) _
        (next r (revokes row.id q.draw.now (q.links 1)))
        (λ t. end_session-Reach AuditAction.logout row)

  logout_all_row-Reach :
      (found : Option RefreshTokenRow) (e : Db)
      → Reach host env d e
      → Reach host env d (logout_all_row q found e).db
  unfolding logout_all_row
  logout_all_row-Reach none e r = r
  logout_all_row-Reach (some row) e r =
      and_then-Reach host env untouched (revoke_all_for_user row.user_id q.draw.now (q.links 1) e) _
        (next r (revokes_all row.user_id q.draw.now (q.links 1)))
        (λ t. end_session-Reach AuditAction.logout_all row)

pub refresh-Reach :
    (host : Host) (env : Env) (cookie : Option ℕ) (q : Request) (d : Db)
    → Reach host env d (refresh host env cookie q d).db
unfolding refresh find_by_raw
refresh-Reach host env none q d = here
refresh-Reach host env (some raw) q d =
    and_then-Reach host env untouched (find_by_raw host raw (q.links 0) d) _
      (read-Reach host env (token_row host raw) (q.links 0) d here) (refresh_row-Reach host env q)

pub logout-Reach :
    (host : Host) (env : Env) (cookie : Option ℕ) (q : Request) (d : Db)
    → Reach host env d (logout host cookie q d).db
unfolding logout find_by_raw
logout-Reach host env none q d = here
logout-Reach host env (some raw) q d =
    and_then-Reach host env untouched (find_by_raw host raw (q.links 0) d) _
      (read-Reach host env (token_row host raw) (q.links 0) d here) (logout_row-Reach host env q)

pub logout_all-Reach :
    (host : Host) (env : Env) (cookie : Option ℕ) (q : Request) (d : Db)
    → Reach host env d (logout_all host cookie q d).db
unfolding logout_all find_by_raw
logout_all-Reach host env none q d = here
logout_all-Reach host env (some raw) q d =
    and_then-Reach host env untouched (find_by_raw host raw (q.links 0) d) _
      (read-Reach host env (token_row host raw) (q.links 0) d here)
      (logout_all_row-Reach host env q)
