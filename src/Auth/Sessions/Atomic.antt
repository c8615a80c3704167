-- ===== src/Auth/Sessions/Atomic.antt =====
-- What a rotation writes, over any connection.
use technical_assignment.Common.Robust.{IsRobust, LostOrSteady, robust_rules, run_tx-LostOrSteady}
use technical_assignment.Auth.Sessions.{rotate_current, rotate, Env, Draw, new_token}
use technical_assignment.Auth.Sessions.Chains.{rotated, IsFresh}
use technical_assignment.Auth.Password.{Host}
use technical_assignment.Auth.Db.{Db, RefreshTokenRow, with_token_id, with_hash}
use technical_assignment.Common.{
  ◌>>=◌, ℕ, Option, none, some, query, rows, first_row, select, ◌≡◌, refl, Link, steady, ◌⊎◌, inl,
  inr, exists_where, Bool-cases, Option-cases,
}

rotate_current-IsRobust :
    (host : Host) (env : Env) (r : Draw) (current : Option RefreshTokenRow)
    → IsRobust (rotate_current host env r current)
unfolding rotate_current
rotate_current-IsRobust host env r none = search robust_rules
rotate_current-IsRobust host env r (some current) = search robust_rules depth 9

-- A rotation either does what it does over a steady connection, or throws and leaves the database
-- as it was, or throws for the answer to COMMIT alone: the new token is never there without the old one being closed.
pub rotate_atomic :
    (host : Host) (env : Env) (r : Draw) (old : ℕ) (l : Link) (d : Db)
    → LostOrSteady (rotate host env r old l d) (rotate host env r old steady d) d
unfolding rotate
rotate_atomic host env r old l d =
    run_tx-LostOrSteady
      (query (λ e. rows (first_row (select (with_token_id old) e.tokens)) e)
        >>= rotate_current host env r)
      l d (search (robust_rules, rotate_current-IsRobust))

-- What it leaves of the database over a steady connection.
pub rotate_writes :
    (host : Host) (env : Env) (r : Draw) (old : ℕ) (d : Db)
    → ((rotate host env r old steady d).1 ≡ d)
      ⊎ ((t : RefreshTokenRow) × IsFresh host r d
          × ((rotate host env r old steady d).1 ≡ rotated host env r t d))
unfolding rotate rotate_current new_token
rotate_writes host env r old d =
    elim (Option-cases (first_row (select (with_token_id old) d.tokens))) [
      | inl missing ↦ rw missing (inl refl)
      | inr (t, found) ↦ elim (Bool-cases (exists_where (with_token_id r.id) d.tokens)) [
        | inl taken ↦ rw (found, taken) (inl refl)
        | inr new_id ↦ elim (Bool-cases (exists_where (with_hash (host.sha256 r.raw)) d.tokens)) [
          | inl taken ↦ rw (found, new_id, taken) (inl refl)
          | inr new_hash ↦ rw (found, new_id, new_hash) (inr (t, (refl, refl), refl))
        ]
      ]
    ]
