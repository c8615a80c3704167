-- ===== src/Auth/Traces/Steps.antt =====
-- What any sequence of steps of the authentication service keeps.
use technical_assignment.Auth.Sessions.Atomic.{rotate_atomic, rotate_writes}
use technical_assignment.Auth.Sessions.Chains.{rotated}
use technical_assignment.Auth.Traces.{
  Step, Reach, creates, bumps, audits, issues, rotates, revokes, revokes_family, revokes_all, here,
  next,
}
use technical_assignment.Auth.Traces.Growth.{
  Keeps, IsKeyed, IsLater, Keeps-refl, Keeps-trans, update_tokens-Keeps, new_token-Keeps,
  new_user-Keeps, bumped-Keeps, logged-Keeps, revoked_row-Wears, rotated_row-Wears,
}
use technical_assignment.Common.Growth.{run_query-keeps}
use technical_assignment.Common.Robust.{LostOrSteady-keeps}
use technical_assignment.Auth.Db.{
  Db, UserRow, RefreshTokenRow, with_user_id, with_token_id, with_hash, live_in_family,
  live_of_user, revoked_row,
}
use technical_assignment.Auth.Password.{Host, hash_password}
use technical_assignment.Auth.Users.{create, bump_token_version, record_audit, insert_user}
use technical_assignment.Auth.Sessions.{
  Env, Draw, issue_new_family, rotate, revoke, revoke_family, revoke_all_for_user, rotated_row,
  new_token, insert_token,
}
use technical_assignment.Common.{
  ℕ, Link, ◌≡◌, Bool-cases, inl, inr, exists_where, rows, query, run_query, Text, ◌==◌, ◌++◌,
  steady, Option-cases, ◌∷◌, [], ◌+◌, ◌*◌,
}

insert_token-Keeps :
    (t : RefreshTokenRow) (l : Link) (d : Db) → Keeps d (run_query (query (insert_token t)) l d).1
insert_token-Keeps t l d =
    run_query-keeps (Keeps d) (insert_token t) l d (Keeps-refl d)
      (elim (Bool-cases (exists_where (with_token_id t.id) d.tokens)) [
        | inl taken ↦ rw taken (λ a d' e. absurd (cc))
        | inr new_id ↦ elim (Bool-cases (exists_where (with_hash t.token_hash) d.tokens)) [
          | inl taken ↦ rw (new_id, taken) (λ a d' e. absurd (cc))
          | inr new_hash ↦
              rw (new_id, new_hash)
                (λ a d' e.
                  let is : record d { tokens = d.tokens ++ t ∷ [] } ≡ d' = cc in
                  rw (← is) (new_token-Keeps t d new_id new_hash))
        ]
      ])

insert_user-Keeps :
    (u : UserRow) (l : Link) (d : Db) → Keeps d (run_query (query (insert_user u)) l d).1
insert_user-Keeps u l d =
    run_query-keeps (Keeps d) (insert_user u) l d (Keeps-refl d)
      (elim (Bool-cases (exists_where (with_user_id u.id) d.users)) [
        | inl taken ↦ rw taken (λ a d' e. absurd (cc))
        | inr new_id ↦ elim (Bool-cases (exists_where (λ v. v.email == u.email) d.users)) [
          | inl taken ↦ rw (new_id, taken) (λ a d' e. absurd (cc))
          | inr new_email ↦
              rw (new_id, new_email)
                (λ a d' e.
                  let is : record d { users = d.users ++ u ∷ [] } ≡ d' = cc in
                  rw (← is) (new_user-Keeps u d new_id new_email))
        ]
      ])

-- A statement that always succeeds.
write-Keeps :
    (f : Db → Db) (l : Link) (d : Db)
    → Keeps d (f d)
    → Keeps d (run_query (query (λ e. rows tt (f e))) l d).1
write-Keeps f l d h =
    run_query-keeps (Keeps d) (λ e. rows tt (f e)) l d (Keeps-refl d)
      (λ a d' e. let is : f d ≡ d' = cc in rw (← is) h)

rotate-Keeps :
    (host : Host) (env : Env) (r : Draw) (old : ℕ) (l : Link) (d : Db)
    → Keeps d (rotate host env r old l d).1
rotate-Keeps host env r old l d =
    LostOrSteady-keeps (Keeps d) (rotate host env r old l d) (rotate host env r old steady d) d
      (rotate_atomic host env r old l d) (Keeps-refl d)
      (elim (rotate_writes host env r old d) [
        | inl same ↦ rw same (Keeps-refl d)
        | inr (t, fresh, out) ↦
            let new = new_token host env r t.user_id t.family_id in
            let d' : Db = record d { tokens = d.tokens ++ new ∷ [] } in
            rw out (
              Keeps-trans d d' (rotated host env r t d)
                (new_token-Keeps new d (unfold new_token in fresh.0) (unfold new_token in fresh.1))
                (update_tokens-Keeps (with_token_id t.id)
                  (rotated_row r.now r.id (r.date + env.rt_grace_seconds * 1000)) d'
                  (rotated_row-Wears r.now r.id (r.date + env.rt_grace_seconds * 1000))))
      ])

create-Keeps :
    (host : Host) (email : ℕ) (password : Text) (salt id now : ℕ) (l : Link) (d : Db)
    → Keeps d (create host email password salt id now l d).1
unfolding create
create-Keeps host email password salt id now l d =
    elim (Option-cases (hash_password host salt password)) [
      | inl rejected ↦ rw rejected (Keeps-refl d)
      | inr (hash, hashed) ↦ rw hashed (insert_user-Keeps _ l d)
    ]

Step-Keeps : {host : Host} {env : Env} {d e : Db} → Step host env d e → Keeps d e
unfolding bump_token_version record_audit issue_new_family revoke revoke_family revoke_all_for_user
Step-Keeps {host} {d = d} (creates email password salt id now l) =
    create-Keeps host email password salt id now l d
Step-Keeps {d = d} (bumps user l) = write-Keeps _ l d (bumped-Keeps (with_user_id user) d)
Step-Keeps {d = d} (audits user action meta now l) = write-Keeps _ l d (logged-Keeps _ d)
Step-Keeps {host} {env} {d} (issues draw family user l) =
    insert_token-Keeps (new_token host env draw user family) l d
Step-Keeps {host} {env} {d} (rotates draw old l) = rotate-Keeps host env draw old l d
Step-Keeps {d = d} (revokes id now l) =
    write-Keeps _ l d
      (update_tokens-Keeps (with_token_id id) (revoked_row now) d (revoked_row-Wears now))
Step-Keeps {d = d} (revokes_family family now l) =
    write-Keeps _ l d
      (update_tokens-Keeps (live_in_family family) (revoked_row now) d (revoked_row-Wears now))
Step-Keeps {d = d} (revokes_all user now l) =
    write-Keeps _ l d
      (update_tokens-Keeps (live_of_user user) (revoked_row now) d (revoked_row-Wears now))

-- From a database in which no two users have one id or one email and no two refresh tokens one id
-- or one hash, after any sequence of the statements and transactions of the authentication service
-- over connections that may break, the same holds; every user is still at their place, with the
-- same id, email and password hash and a version that is no smaller; every refresh token is still
-- at its place, of the same user, family, hash and expiry, and revoked if it was; and the audit log
-- is the old one with entries added at its end.
pub Reach-IsLater :
    {host : Host} {env : Env} {d e : Db} → Reach host env d e → IsKeyed d → IsKeyed e × IsLater d e
Reach-IsLater {d = d} r v = let (later, keyed) = kept r in (keyed v, later)
  where
    kept : {host : Host} {env : Env} {d e : Db} → Reach host env d e → Keeps d e
    kept {d = d} here = Keeps-refl d
    kept {d = d} {e = e} (next {e = m} r s) = Keeps-trans d m e (kept r) (Step-Keeps s)
