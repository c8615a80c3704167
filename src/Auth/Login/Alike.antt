-- ===== src/Auth/Login/Alike.antt =====
-- What a login tells of whether there is a user with the email.
use technical_assignment.Auth.Password.{
  Host, IsArgon2, argon2_params, hash_password, init_dummy_hash, verify_password, verifies,
  verify_dummy_password, dummy_password, does_not_matter,
}
use technical_assignment.Auth.Db.{Db, UserRow}
use technical_assignment.Auth.Sessions.{Env}
use technical_assignment.Auth.Users.{find_by_email, email_row, record_audit}
use technical_assignment.Auth.Controller.{Request, untouched, invalid_credentials_401}
use technical_assignment.Auth.Controller.Refresh.{IsSteady}
use technical_assignment.Auth.Login.{Body, Credentials, parse_login, login}
use technical_assignment.Common.{ℕ, Text, some, none, ◌≡◌, refl, ◌∷◌, [], false}

-- Over steady connections, where the hash of the user and the dummy hash were made with the
-- parameters of the environment, a login with the email of the user and a password that does not
-- verify and one with an email that no user has get the same answer, 401, and leave the cookie, the
-- users, the refresh tokens and the dummy hash as they were; and each of them makes one call of
-- argon2, a verification, at those same parameters.
pub login_answers_alike :
    (host : Host) (env : Env) (family salt salt_u salt_d dummy : ℕ) (plain : Text)
    (known unknown : Body) (q : Request) (d : Db) {dto dto' : Credentials} {u : UserRow}
    → IsArgon2 host
    → IsSteady q
    → parse_login host known ≡ some dto
    → parse_login host unknown ≡ some dto'
    → email_row host dto.email d ≡ some u
    → email_row host dto'.email d ≡ none
    → hash_password host salt_u plain ≡ some u.password_hash
    → init_dummy_hash host salt_d ≡ some dummy
    → verify_password host u.password_hash dto.password ≡ false
    → let wrong = login host env family salt (some dummy) known q d in
      let missing = login host env family salt (some dummy) unknown q d in
      (wrong.handled.response ≡ invalid_credentials_401)
      × (missing.handled.response ≡ invalid_credentials_401)
      × (wrong.work ≡ verifies (argon2_params host) ∷ [])
      × (missing.work ≡ verifies (argon2_params host) ∷ [])
      × (wrong.handled.cookie ≡ untouched)
      × (missing.handled.cookie ≡ untouched)
      × (record wrong.handled.db { audit_log = d.audit_log } ≡ d)
      × (record missing.handled.db { audit_log = d.audit_log } ≡ d)
      × (wrong.dummy_hash ≡ some dummy)
      × (missing.dummy_hash ≡ some dummy)
unfolding login find_by_email verify_dummy_password record_audit hash_password init_dummy_hash
login_answers_alike host env family salt salt_u salt_d dummy plain known unknown q d {u = u} laws hs
      parsed parsed' found absent made made_dummy wrong =
    let (b, checked) =
      laws.verifies_any (argon2_params host) salt_d dummy_password does_not_matter made_dummy in
    let cost = laws.params_in (argon2_params host) salt_u plain made in
    let cost' = laws.params_in (argon2_params host) salt_d dummy_password made_dummy in
    rw (parsed, parsed', hs 0, found, absent, wrong, checked, cost, cost', hs 1)
      (refl, refl, refl, refl, refl, refl, refl, refl, refl, refl)
