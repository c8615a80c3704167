-- ===== src/Auth/Controller/Owner.antt =====
-- For whom POST refresh gives an access token.
use technical_assignment.Auth.Password.{Host}
use technical_assignment.Auth.Sessions.{Env, rotate, revoke_family, find_by_raw, token_row}
use technical_assignment.Auth.Users.{find_by_id, user_row}
use technical_assignment.Auth.Db.{Db, UserRow, RefreshTokenRow, AuditAction}
use technical_assignment.Auth.Controller.{
  Cookie, Env, UserRow, Result, Link, RefreshTokenRow, AccessTokenClaims, Handled, and_then,
  Request, accept_retry, tokens_200, some, rotate_for, ok, sign_access_token, untouched,
  answer_with, internal_error_500, rotate, record_audit, set_to, AuditAction, plain_meta, true,
  detect_reuse, ℕ, by_state, find_by_id, revoke_family, in_grace, refresh, refresh_row, find_by_raw,
  leb, false, Host,
}
use technical_assignment.Common.{
  Option, Link, Result, run_query, query, ◌≡◌, rows, some, none, ok, err, refl, breaks, unanswered,
  suc, steady, zero, true, ℕ, ◌⊎◌, inl, Bool-cases, inr, leb, false,
}

-- A handler that goes on after a statement and answers with tokens has had the statement succeed.
and_then-tokens :
    {A : Type 0} {G : Type 0} {c : AccessTokenClaims} (cookie : Cookie) (r : Result A × Db)
    (k : A → Db → Handled)
    → ((a : A) (d : Db) → r ≡ (ok a, d) → (k a d).response ≡ tokens_200 c → G)
    → (and_then cookie r k).response ≡ tokens_200 c
    → G
and_then-tokens cookie (ok a, d) k on e = on a d refl e
and_then-tokens cookie (err x, d) k on e = absurd (internal_error e)
  where
    internal_error : {c : AccessTokenClaims} → ¬ (internal_error_500 ≡ tokens_200 c)
    internal_error e = absurd (cc)

-- A statement that only reads gives what the database holds.
read_ok :
    {A : Type 0} (f : Db → A) (l : Link) (d : Db) {a : A} {d' : Db}
    → run_query (query (λ e. rows (f e) e)) l d ≡ (ok a, d')
    → (a ≡ f d) × (d' ≡ d)
read_ok f steady d e = (cc, cc)
read_ok f (breaks zero) d e = absurd (cc)
read_ok f (breaks (suc n)) d e = (cc, cc)
read_ok f (unanswered zero) d e = absurd (cc)
read_ok f (unanswered (suc n)) d e = (cc, cc)

-- A refresh token that is not revoked, or was a moment ago.
abbrev pub IsUsable : RefreshTokenRow → ℕ → Option ℕ → Type 0
IsUsable row date revoked = (revoked ≡ none) ⊎ (in_grace row.grace_until date ≡ true)

abbrev IsSignedFor : Option UserRow → AccessTokenClaims → Type 0
IsSignedFor u c = (v : UserRow) × (u ≡ some v) × (c ≡ sign_access_token v)

module _ (host : Host) (env : Env) (row : RefreshTokenRow) (q : Request)
    {c : AccessTokenClaims} where
  audited :
      {G : Type 0} (v : UserRow) (cookie after : Cookie) (r : Result (Unit {0}) × Db)
      → (c ≡ sign_access_token v → G)
      → (and_then cookie r (λ t d. answer_with (tokens_200 (sign_access_token v)) after d)).response
        ≡ tokens_200 c
      → G
  audited v cookie after r g =
      and_then-tokens cookie r (λ t d. answer_with (tokens_200 (sign_access_token v)) after d)
        (λ t d s e. g (cc))

  rotate_for-IsSignedFor :
      (u : Option UserRow) (d : Db)
      → (rotate_for host env row q u d).response ≡ tokens_200 c
      → IsSignedFor u c
  unfolding rotate_for
  rotate_for-IsSignedFor none d = λ e. absurd (cc)
  rotate_for-IsSignedFor (some v) d =
      and_then-tokens untouched (rotate host env q.draw row.id (q.links 2) d) _ (λ new d' r.
        audited v (set_to q.draw.raw) (set_to q.draw.raw)
          (record_audit (some v.id) AuditAction.refresh (plain_meta q) q.draw.now (q.links 3) d')
          (λ g. (v, refl, g)))

  accept_retry-IsSignedFor :
      (u : Option UserRow) (d : Db) → (accept_retry q u d).response ≡ tokens_200 c → IsSignedFor u c
  unfolding accept_retry
  accept_retry-IsSignedFor none d = λ e. absurd (cc)
  accept_retry-IsSignedFor (some v) d =
      audited v untouched untouched
        (record_audit (some v.id) AuditAction.refresh (record (plain_meta q) { grace = some true })
          q.draw.now (q.links 2) d)
        (λ g. (v, refl, g))

  detect_reuse_silent : {G : Type 0} (d : Db) → (detect_reuse row q d).response ≡ tokens_200 c → G
  unfolding detect_reuse
  detect_reuse_silent d =
      and_then-tokens untouched (revoke_family row.family_id q.draw.now (q.links 1) d) _ (λ t d' r.
        and_then-tokens untouched
          (record_audit (some row.user_id) AuditAction.session_revoke
            (record (plain_meta q) { reuse_detected = true }) q.draw.now (q.links 2) d')
          _ (λ t' d'' r' e. absurd (cc)))

  by_state-IsSignedFor :
      (revoked : Option ℕ) (d : Db)
      → (by_state host env row q revoked d).response ≡ tokens_200 c
      → IsSignedFor (user_row row.user_id d) c × IsUsable row q.draw.date revoked
  unfolding by_state find_by_id
  by_state-IsSignedFor none d =
      and_then-tokens untouched (find_by_id row.user_id (q.links 1) d) _ (λ u d' r e.
        let (found, same) = read_ok (user_row row.user_id) (q.links 1) d r in
        (rw found at (rotate_for-IsSignedFor u d' e), inl refl))
  by_state-IsSignedFor (some t) d = elim (Bool-cases (in_grace row.grace_until q.draw.date)) [
    | inl grace ↦ rw grace (
        and_then-tokens untouched (find_by_id row.user_id (q.links 1) d) _ (λ u d' r e.
          let (found, same) = read_ok (user_row row.user_id) (q.links 1) d r in
          (rw found at (accept_retry-IsSignedFor u d' e), inr refl)))
    | inr late ↦ rw late (detect_reuse_silent d)
  ]

  row-IsSignedFor :
      (d : Db)
      → (refresh_row host env q (some row) d).response ≡ tokens_200 c
      → IsSignedFor (user_row row.user_id d) c
        × IsUsable row q.draw.date row.revoked_at
        × (leb row.expires_at q.draw.date ≡ false)
  unfolding refresh_row
  row-IsSignedFor d = elim (Bool-cases (leb row.expires_at q.draw.date)) [
    | inl old ↦ rw old (λ e. absurd (cc))
    | inr young ↦ rw young (λ e.
        let (signed, usable) = by_state-IsSignedFor row.revoked_at d e in (signed, usable, refl))
  ]

-- POST refresh gives an access token only where the cookie's hash is that of a refresh token which
-- has not expired and is not revoked or still in its grace period, and only for the user that
-- this refresh token belongs to, with the fields of that user's row.
pub tokens_only_for_owner :
    (host : Host) (env : Env) (raw : ℕ) (q : Request) (d : Db) (c : AccessTokenClaims)
    → (refresh host env (some raw) q d).response ≡ tokens_200 c
    → (row : RefreshTokenRow) × (u : UserRow) × (token_row host raw d ≡ some row)
      × (user_row row.user_id d ≡ some u)
      × (c ≡ sign_access_token u)
      × (leb row.expires_at q.draw.date ≡ false)
      × IsUsable row q.draw.date row.revoked_at
unfolding refresh find_by_raw
tokens_only_for_owner host env raw q d c =
    and_then-tokens untouched (find_by_raw host raw (q.links 0) d) _ (λ found d' r.
      let (seen, same) = read_ok (token_row host raw) (q.links 0) d r in
      rw (seen, same) (owner (token_row host raw d) refl))
  where
    owner :
        (found : Option RefreshTokenRow)
        → token_row host raw d ≡ found
        → (refresh_row host env q found d).response ≡ tokens_200 c
        → (row : RefreshTokenRow) × (u : UserRow) × (token_row host raw d ≡ some row)
          × (user_row row.user_id d ≡ some u)
          × (c ≡ sign_access_token u)
          × (leb row.expires_at q.draw.date ≡ false)
          × IsUsable row q.draw.date row.revoked_at
    owner none k = λ e. absurd (cc)
    owner (some row) k = λ e.
        let (signed, usable, young) = row-IsSignedFor host env row q d e in
        (row, signed.0, k, signed.1, signed.2, young, usable)
