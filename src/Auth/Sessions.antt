-- ===== src/Auth/Sessions.antt =====
-- apps/auth/src/sessions/sessions.repository.ts: `SessionsRepository`. Random bytes, generated ids
-- and the two clocks, `Date.now()` and NOW(), are arguments.
pub mod Chains
pub mod Atomic
use technical_assignment.Auth.Password.{Host}
use technical_assignment.Common.{
  ◌>>=◌, ◌>>◌, ℕ, Option, none, some, Link, Bool, ◌+◌, first_row, Answer, Tx, Result, run_tx, ◌*◌,
  Verdict, select, if◌then◌else◌, query, run_query, throw, exists_where, rows, violates,
  rt_not_found, update_where, unique_violation, primary_key, token_hash_key, ◌++◌, ◌∷◌, [], pure,
  commit,
}
use technical_assignment.Auth.Db.{
  Db, RefreshTokenRow, with_hash, live_in_family, with_token_id, live_of_user, revoked_row,
}

pub record Env : Type 0 where
  pub rt_ttl_seconds : ℕ
  pub rt_grace_seconds : ℕ

-- What one issue draws and reads: `randomBytes(48)`, the row's id, `Date.now()` and NOW().
pub record Draw : Type 0 where
  pub raw : ℕ
  pub id : ℕ
  pub date : ℕ
  pub now : ℕ

unfoldable pub new_token : Host → Env → Draw → ℕ → ℕ → RefreshTokenRow
new_token host env r user family = record {
  id = r.id;
  user_id = user;
  family_id = family;
  token_hash = host.sha256 r.raw;
  rotated_to = none;
  revoked_at = none;
  expires_at = r.date + env.rt_ttl_seconds * 1000;
  grace_until = none;
  created_at = r.now;
}

-- INSERT INTO refresh_tokens, with its primary key and UNIQUE (token_hash).
abbrev pub insert_token : RefreshTokenRow → Db → Answer Db RefreshTokenRow
insert_token t d =
    if exists_where (with_token_id t.id) d.tokens
    then violates (unique_violation primary_key)
    else if exists_where (with_hash t.token_hash) d.tokens
    then violates (unique_violation token_hash_key)
    else rows t (record d { tokens = d.tokens ++ t ∷ [] })

unfoldable pub issue_new_family :
    Host → Env → Draw → ℕ → ℕ → Link → Db → Result RefreshTokenRow × Db
unfolding new_token
issue_new_family host env r family user =
    run_query (query (insert_token (new_token host env r user family)))

abbrev pub token_row : Host → ℕ → Db → Option RefreshTokenRow
token_row host raw d = first_row (select (with_hash (host.sha256 raw)) d.tokens)

unfoldable pub find_by_raw : Host → ℕ → Link → Db → Result (Option RefreshTokenRow) × Db
find_by_raw host raw = run_query (query (λ d. rows (token_row host raw d) d))

-- UPDATE refresh_tokens SET revoked_at = NOW(), rotated_to = $1, grace_until = $2
abbrev pub rotated_row : ℕ → ℕ → ℕ → RefreshTokenRow → RefreshTokenRow
rotated_row now next grace t = record t {
  revoked_at = some now;
  rotated_to = some next;
  grace_until = some grace;
}

abbrev update_tokens :
    (RefreshTokenRow → Bool) → (RefreshTokenRow → RefreshTokenRow) → Tx Db (Unit {0})
update_tokens p f = query (λ d. rows tt (record d { tokens = update_where p f d.tokens }))

rotate_current : Host → Env → Draw → Option RefreshTokenRow → Tx Db (Verdict RefreshTokenRow)
unfolding new_token
rotate_current host env r none = throw rt_not_found
rotate_current host env r (some current) = do
  row ← query (insert_token (new_token host env r current.user_id current.family_id))
  update_tokens (with_token_id current.id)
      (rotated_row r.now row.id (r.date + env.rt_grace_seconds * 1000))
  pure (commit row)

-- `rotate`, given the id of the old row; the raw token of the result is that of the draw.
unfoldable pub rotate : Host → Env → Draw → ℕ → Link → Db → Result RefreshTokenRow × Db
unfolding rotate_current
rotate host env r old = run_tx (do
  current ← query (λ d. rows (first_row (select (with_token_id old) d.tokens)) d)
  rotate_current host env r current)

unfoldable pub revoke : ℕ → ℕ → Link → Db → Result (Unit {0}) × Db
revoke id now = run_query (update_tokens (with_token_id id) (revoked_row now))

unfoldable pub revoke_family : ℕ → ℕ → Link → Db → Result (Unit {0}) × Db
revoke_family family now = run_query (update_tokens (live_in_family family) (revoked_row now))

unfoldable pub revoke_all_for_user : ℕ → ℕ → Link → Db → Result (Unit {0}) × Db
revoke_all_for_user user now = run_query (update_tokens (live_of_user user) (revoked_row now))
