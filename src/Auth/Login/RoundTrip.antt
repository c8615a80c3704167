-- ===== src/Auth/Login/RoundTrip.antt =====
-- A login after a registration.
use technical_assignment.Auth.Password.{
  Host, IsArgon2, argon2_params, hash_password, verify_password,
}
use technical_assignment.Auth.Db.{Db, UserRow, with_user_id, with_hash}
use technical_assignment.Auth.Sessions.{Env, new_token, token_row, issue_new_family}
use technical_assignment.Auth.Sessions.Chains.{IsFresh}
use technical_assignment.Auth.Users.{find_by_email, email_row, user_row, create, record_audit}
use technical_assignment.Auth.Controller.{
  Request, set_to, registered_201, tokens_200, sign_access_token,
}
use technical_assignment.Auth.Controller.Refresh.{IsSteady}
use technical_assignment.Auth.Login.{
  Body, Credentials, parse_login, parse_register, login, register, Option,
}
use technical_assignment.Common.{
  ℕ, Bool, some, none, ◌≡◌, refl, ◌==◌, ==_refl, first_row-select-last, exists_where-none,
  exists_where-count, count_where-first_row, Option,
}

-- Over steady connections, and where argon2 hashes the password and the new ids, the email and the
-- hash of the new token are in no row, a registration answers 201 with the id of the new user, and
-- a login with the same password and the same email, up to its case, is then given an access token
-- for that user with version 0, and a refresh token of that user that the database holds.
pub register_then_login :
    (host : Host) (env : Env) (family salt salt' : ℕ) (dummy : Option ℕ) (body body' : Body)
    (q q' : Request) (d : Db) {dto dto' : Credentials} {hash : ℕ}
    → IsArgon2 host
    → IsSteady q
    → IsSteady q'
    → parse_register host body ≡ some dto
    → parse_login host body' ≡ some dto'
    → dto'.password ≡ dto.password
    → host.to_lower_case dto'.email ≡ host.to_lower_case dto.email
    → hash_password host salt dto.password ≡ some hash
    → email_row host dto.email d ≡ none
    → user_row q.draw.id d ≡ none
    → IsFresh host q'.draw d
    → let first = register host body salt q d in
      let then_in = (login host env family salt' dummy body' q' first.db).handled in
      (first.response ≡ registered_201 q.draw.id)
      × (then_in.response
          ≡ tokens_200 (record { sub = q.draw.id; email = host.to_lower_case dto.email; tv = 0 }))
      × (then_in.cookie ≡ set_to q'.draw.raw)
      × (token_row host q'.draw.raw then_in.db ≡ some (new_token host env q'.draw q.draw.id family))
unfolding register create login find_by_email record_audit issue_new_family sign_access_token
    verify_password hash_password
register_then_login host env family salt salt' dummy body body' q q' d {dto} {dto'} {hash} laws hs
      hs' parsed parsed' same_password same_email hashed new_email new_id fresh =
    let u : UserRow = record {
      id = q.draw.id;
      email = host.to_lower_case dto.email;
      password_hash = hash;
      token_version = 0;
      created_at = q.draw.now;
    } in
    let verified = laws.verifies_own (argon2_params host) salt dto.password hashed in
    let by_email : UserRow → Bool = λ v. v.email == host.to_lower_case dto.email in
    let found =
      first_row-select-last by_email d.users u new_email (==_refl (host.to_lower_case dto.email)) in
    let no_email = exists_where-none by_email d.users new_email in
    let no_id = exists_where-none (with_user_id q.draw.id) d.users new_id in
    let new = new_token host env q'.draw q.draw.id family in
    let held =
      first_row-select-last (with_hash (host.sha256 q'.draw.raw)) d.tokens new
        (count_where-first_row (with_hash (host.sha256 q'.draw.raw)) d.tokens
          (exists_where-count (with_hash (host.sha256 q'.draw.raw)) d.tokens fresh.1))
        (unfold new_token in ==_refl (host.sha256 q'.draw.raw)) in
    rw
      (
        parsed,
        parsed',
        same_password,
        same_email,
        hashed,
        hs 0,
        no_id,
        no_email,
        hs 1,
        hs' 0,
        found,
        verified,
        hs' 1,
        fresh.0,
        fresh.1,
        hs' 2,
      )
      (refl, refl, refl, held)
