-- ===== src/Auth/Login.antt =====
-- apps/auth/src/auth/auth.controller.ts: `register` and `login` of `AuthController`, from the body
-- of the request on. `login` stands behind its guard.
pub mod Alike
pub mod Traced
pub mod RoundTrip
use technical_assignment.Auth.Users.{create, find_by_email, record_audit}
use technical_assignment.Auth.Db.{UserRow, Db, AuditMeta, AuditAction}
use technical_assignment.Auth.Sessions.{Env, issue_new_family}
use technical_assignment.Auth.Controller.{
  Handled, Request, and_then, answer_with, plain_meta, registered_201, untouched,
  internal_error_500, email_already_registered_400, set_to, tokens_200, invalid_credentials_401,
  sign_access_token,
}
use technical_assignment.Auth.Password.{
  Host, Work, Checked, verify_password, verifies, verify_dummy_password,
}
use technical_assignment.Common.{
  ℕ, Option, Result, Text, Bool, leb, List, length, ok, some, err, ◌&&◌, if◌then◌else◌, none, [],
  unique_violation, ◌∷◌, true, false,
}

-- The fields of the body that are texts; where it is no object there are none.
pub record Body : Type 0 where
  pub email : Option ℕ
  pub password : Option Text

pub record Credentials : Type 0 where
  pub email : ℕ
  pub password : Text

with_length : (Text → Bool) → Option ℕ → Option Text → Host → Option Credentials
with_length p (some email) (some password) host =
    if host.is_email email && p password
    then some (record { email = email; password = password })
    else none
with_length p (some email) none host = none
with_length p none password host = none

-- LoginDto.parse and RegisterDto.parse; they throw where there is no result.
unfoldable pub parse_login : Host → Body → Option Credentials
unfolding with_length
parse_login host b = with_length (λ t. leb 1 (length t)) b.email b.password host

unfoldable pub parse_register : Host → Body → Option Credentials
unfolding with_length
parse_register host b =
    with_length (λ t. leb 8 (length t) && leb (length t) 128) b.email b.password host

after_register : Result (Unit {0}) × Db → ℕ → Handled
after_register (ok u, d) id = answer_with (registered_201 id) untouched d
after_register (err (unique_violation c), d) id =
    answer_with email_already_registered_400 untouched d
after_register (err e, d) id = answer_with internal_error_500 untouched d

after_create : Request → Result UserRow × Db → Handled
unfolding after_register
after_create q (ok u, d) =
    after_register
      (record_audit (some u.id) AuditAction.register (plain_meta q) q.draw.now (q.links 1) d) u.id
after_create q (err (unique_violation c), d) = answer_with email_already_registered_400 untouched d
after_create q (err e, d) = answer_with internal_error_500 untouched d

register_dto : Host → ℕ → Request → Db → Option Credentials → Handled
unfolding after_create
register_dto host salt q d none = answer_with internal_error_500 untouched d
register_dto host salt q d (some dto) =
    after_create q (create host dto.email dto.password salt q.draw.id q.draw.now (q.links 0) d)

-- POST register; `salt` is the one that argon2 draws.
unfoldable pub register : Host → Body → ℕ → Request → Db → Handled
unfolding register_dto
register host body salt q d = register_dto host salt q d (parse_register host body)

abbrev login_meta : Request → Bool → AuditMeta
login_meta q accepted = record (plain_meta q) { ip = q.ip; accepted = some accepted }

abbrev id_of : Option UserRow → Option ℕ
id_of (some u) = some u.id
id_of none = none

refused : Option UserRow → Request → Db → Handled
refused u q d =
    and_then untouched
      (record_audit (id_of u) AuditAction.login (login_meta q false) q.draw.now (q.links 1) d)
      (λ t d'. answer_with invalid_credentials_401 untouched d')

let_in : Host → Env → ℕ → UserRow → Request → Db → Handled
let_in host env family u q d =
    and_then untouched (issue_new_family host env q.draw family u.id (q.links 1) d) (λ row d'.
      and_then (set_to q.draw.raw)
        (record_audit (some u.id) AuditAction.login (login_meta q true) q.draw.now (q.links 2) d')
        (λ t d''. answer_with (tokens_200 (sign_access_token u)) (set_to q.draw.raw) d''))

-- What a login gives, with the `dummyHash` that it leaves and the calls of argon2 it has made.
pub record Login : Type 0 where
  pub handled : Handled
  pub dummy_hash : Option ℕ
  pub work : List Work

-- const ok = user ? await verifyPassword(…) : await verifyDummyPassword();
check_credentials : Host → ℕ → Option ℕ → Text → Option UserRow → Checked
check_credentials host salt dummy password (some u) = record {
  result = some (verify_password host u.password_hash password);
  dummy_hash = dummy;
  work = verifies (host.argon2_params_in u.password_hash) ∷ [];
}
check_credentials host salt dummy password none = verify_dummy_password host salt dummy

-- if (!user || !ok)
decide : Host → Env → ℕ → Request → Option UserRow → Option Bool → Db → Handled
unfolding refused let_in
decide host env family q u none d = answer_with internal_error_500 untouched d
decide host env family q none (some verified) d = refused none q d
decide host env family q (some u) (some verified) d =
    if verified then let_in host env family u q d else refused (some u) q d

after_find : Host → Env → ℕ → ℕ → Option ℕ → Text → Request → Result (Option UserRow) × Db → Login
unfolding check_credentials decide
after_find host env family salt dummy password q (err e, d) = record {
  handled = answer_with internal_error_500 untouched d;
  dummy_hash = dummy;
  work = [];
}
after_find host env family salt dummy password q (ok u, d) =
    let c = check_credentials host salt dummy password u in
    record {
      handled = decide host env family q u c.result d;
      dummy_hash = c.dummy_hash;
      work = c.work;
    }

login_dto : Host → Env → ℕ → ℕ → Option ℕ → Request → Db → Option Credentials → Login
unfolding after_find
login_dto host env family salt dummy q d none = record {
  handled = answer_with internal_error_500 untouched d;
  dummy_hash = dummy;
  work = [];
}
login_dto host env family salt dummy q d (some dto) =
    after_find host env family salt dummy dto.password q
      (find_by_email host dto.email (q.links 0) d)

-- POST login: `family` is the 16 random bytes, `salt` what argon2 would draw, and `dummy` the value
-- of `dummyHash`.
unfoldable pub login : Host → Env → ℕ → ℕ → Option ℕ → Body → Request → Db → Login
unfolding login_dto
login host env family salt dummy body q d =
    login_dto host env family salt dummy q d (parse_login host body)
