-- ===== src/Auth/Login/Traced.antt =====
-- POST register and POST login write by the steps of Auth/Traces alone.
use technical_assignment.Auth.Traces.{
  Reach, next, here, creates, audits, issues, and_then-Reach, read-Reach,
}
use technical_assignment.Auth.Password.{Host}
use technical_assignment.Auth.Db.{Db, UserRow}
use technical_assignment.Auth.Users.{find_by_email, email_row, record_audit, create}
use technical_assignment.Auth.Sessions.{Env, issue_new_family}
use technical_assignment.Auth.Controller.{Request, untouched, set_to}
use technical_assignment.Auth.Login.{
  Body, Credentials, parse_login, parse_register, register_dto, register, after_create,
  after_register, refused, let_in, decide, after_find, check_credentials, login_dto, login,
}
use technical_assignment.Common.{
  foreign_key_violation, rt_not_found, argon2_rejected, connection_lost, ℕ, Option, none, some,
  Bool, true, false, Result, ok, err, unique_violation, Text, foreign_key_violation, rt_not_found,
  argon2_rejected,
}

module _ (host : Host) (env : Env) (q : Request) {d : Db} where
  after_register-Reach :
      (r : Result (Unit {0}) × Db) (id : ℕ)
      → Reach host env d r.1
      → Reach host env d (after_register r id).db
  unfolding after_register
  after_register-Reach (ok u, e) id h = h
  after_register-Reach (err (unique_violation c), e) id h = h
  after_register-Reach (err foreign_key_violation, e) id h = h
  after_register-Reach (err rt_not_found, e) id h = h
  after_register-Reach (err argon2_rejected, e) id h = h
  after_register-Reach (err connection_lost, e) id h = h

  after_create-Reach :
      (r : Result UserRow × Db) → Reach host env d r.1 → Reach host env d (after_create q r).db
  unfolding after_create
  after_create-Reach (ok u, e) h =
      after_register-Reach (record_audit _ _ _ _ _ e) u.id (next h (audits _ _ _ _ _))
  after_create-Reach (err (unique_violation c), e) h = h
  after_create-Reach (err foreign_key_violation, e) h = h
  after_create-Reach (err rt_not_found, e) h = h
  after_create-Reach (err argon2_rejected, e) h = h
  after_create-Reach (err connection_lost, e) h = h

  refused-Reach :
      (u : Option UserRow) (e : Db) → Reach host env d e → Reach host env d (refused u q e).db
  unfolding refused
  refused-Reach u e h =
      and_then-Reach host env untouched (record_audit _ _ _ _ _ e) _ (next h (audits _ _ _ _ _))
        (λ t f s. s)

  let_in-Reach :
      (family : ℕ) (u : UserRow) (e : Db)
      → Reach host env d e
      → Reach host env d (let_in host env family u q e).db
  unfolding let_in
  let_in-Reach family u e h =
      and_then-Reach host env untouched (issue_new_family host env q.draw family u.id (q.links 1) e)
        _ (next h (issues q.draw family u.id (q.links 1)))
        (λ row f s.
          and_then-Reach host env (set_to q.draw.raw) (record_audit _ _ _ _ _ f) _
            (next s (audits _ _ _ _ _)) (λ t g s'. s'))

  decide-Reach :
      (family : ℕ) (u : Option UserRow) (verified : Option Bool) (e : Db)
      → Reach host env d e
      → Reach host env d (decide host env family q u verified e).db
  unfolding decide
  decide-Reach family u none e h = h
  decide-Reach family none (some verified) e h = refused-Reach none e h
  decide-Reach family (some u) (some true) e h = let_in-Reach family u e h
  decide-Reach family (some u) (some false) e h = refused-Reach (some u) e h

  after_find-Reach :
      (family salt : ℕ) (dummy : Option ℕ) (password : Text) (r : Result (Option UserRow) × Db)
      → Reach host env d r.1
      → Reach host env d (after_find host env family salt dummy password q r).handled.db
  unfolding after_find
  after_find-Reach family salt dummy password (err x, e) h = h
  after_find-Reach family salt dummy password (ok u, e) h =
      decide-Reach family u (check_credentials host salt dummy password u).result e h

  register_dto-Reach :
      (salt : ℕ) (dto : Option Credentials) → Reach host env d (register_dto host salt q d dto).db
  unfolding register_dto
  register_dto-Reach salt none = here
  register_dto-Reach salt (some dto) =
      after_create-Reach (create host _ _ _ _ _ _ d) (next here (creates _ _ _ _ _ _))

  login_dto-Reach :
      (family salt : ℕ) (dummy : Option ℕ) (dto : Option Credentials)
      → Reach host env d (login_dto host env family salt dummy q d dto).handled.db
  unfolding login_dto find_by_email
  login_dto-Reach family salt dummy none = here
  login_dto-Reach family salt dummy (some dto) =
      after_find-Reach family salt dummy dto.password (find_by_email host dto.email (q.links 0) d)
        (read-Reach host env (email_row host dto.email) (q.links 0) d here)

pub register-Reach :
    (host : Host) (env : Env) (body : Body) (salt : ℕ) (q : Request) (d : Db)
    → Reach host env d (register host body salt q d).db
unfolding register
register-Reach host env body salt q d =
    register_dto-Reach host env q salt (parse_register host body)

pub login-Reach :
    (host : Host) (env : Env) (family salt : ℕ) (dummy : Option ℕ) (body : Body) (q : Request)
    (d : Db)
    → Reach host env d (login host env family salt dummy body q d).handled.db
unfolding login
login-Reach host env family salt dummy body q d =
    login_dto-Reach host env q family salt dummy (parse_login host body)
