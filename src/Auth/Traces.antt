-- ===== src/Auth/Traces.antt =====
-- The authentication service at work: any interleaving of the statements and transactions that its
-- handlers send, by any number of replicas, over connections that may break.
pub mod Growth
pub mod Steps
use technical_assignment.Common.{
  ℕ, Text, Option, Link, Result, ok, err, run_query, query, rows, ◌≡◌,
}
use technical_assignment.Common.Growth.{run_query-keeps}
use technical_assignment.Auth.Controller.{Cookie, Handled, and_then}
use technical_assignment.Auth.Password.{Host}
use technical_assignment.Auth.Db.{Db, AuditAction, AuditMeta}
use technical_assignment.Auth.Users.{create, bump_token_version, record_audit}
use technical_assignment.Auth.Sessions.{
  Env, Draw, issue_new_family, rotate, revoke, revoke_family, revoke_all_for_user,
}

-- What the repositories and the audit log send that writes.
pub data Step (host : Host) (env : Env) (d : Db) : Db → Type 0 where
  creates :
      (email : ℕ) (password : Text) (salt id now : ℕ) (l : Link)
      → Step host env d (create host email password salt id now l d).1
  bumps : (user : ℕ) (l : Link) → Step host env d (bump_token_version user l d).1
  audits :
      (user : Option ℕ) (action : AuditAction) (meta : AuditMeta) (now : ℕ) (l : Link)
      → Step host env d (record_audit user action meta now l d).1
  issues :
      (draw : Draw) (family user : ℕ) (l : Link)
      → Step host env d (issue_new_family host env draw family user l d).1
  rotates : (draw : Draw) (old : ℕ) (l : Link) → Step host env d (rotate host env draw old l d).1
  revokes : (id now : ℕ) (l : Link) → Step host env d (revoke id now l d).1
  revokes_family : (family now : ℕ) (l : Link) → Step host env d (revoke_family family now l d).1
  revokes_all : (user now : ℕ) (l : Link) → Step host env d (revoke_all_for_user user now l d).1

pub data Reach (host : Host) (env : Env) (d : Db) : Db → Type 0 where
  here : Reach host env d d
  next : {e f : Db} → Reach host env d e → Step host env e f → Reach host env d f

pub Reach-trans :
    {host : Host} {env : Env} {d e f : Db}
    → Reach host env d e
    → Reach host env e f
    → Reach host env d f
Reach-trans r here = r
Reach-trans r (next t s) = next (Reach-trans r t) s

-- A handler that goes on after a statement, and the statements that only read.
module _ (host : Host) (env : Env) {d : Db} where
  pub and_then-Reach :
      {A : Type 0} (c : Cookie) (r : Result A × Db) (k : A → Db → Handled)
      → Reach host env d r.1
      → ((a : A) (e : Db) → Reach host env d e → Reach host env d (k a e).db)
      → Reach host env d (and_then c r k).db
  and_then-Reach c (ok a, e) k h on = on a e h
  and_then-Reach c (err x, e) k h on = h

  pub read-Reach :
      {A : Type 0} (f : Db → A) (l : Link) (e : Db)
      → Reach host env d e
      → Reach host env d (run_query (query (λ x. rows (f x) x)) l e).1
  read-Reach f l e r =
      run_query-keeps (Reach host env d) (λ x. rows (f x) x) l e r
        (λ a e' q. let same : e ≡ e' = cc in rw (← same) r)
