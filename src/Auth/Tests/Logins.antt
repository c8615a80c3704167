-- ===== src/Auth/Tests/Logins.antt =====
-- Logins, registrations and requests in a row, on the database of the parent.
use technical_assignment.Auth.Tests.{host, env, host-IsArgon2, active_db, request_at, draw_at}
use technical_assignment.Auth.Login.Alike.{login_answers_alike}
use technical_assignment.Auth.Login.RoundTrip.{register_then_login}
use technical_assignment.Auth.Requests.{
  requests_keep_books, serve_all, registers, logs_in, refreshes, logs_out, logs_out_all, Call,
}
use technical_assignment.Auth.Traces.Growth.{IsKeyed, IsLater}
use technical_assignment.Auth.Password.{
  argon2_params, hash_password, init_dummy_hash, verify_password, verifies,
}
use technical_assignment.Auth.Login.{Body, parse_login, parse_register, login, register}
use technical_assignment.Auth.Controller.{
  invalid_credentials_401, registered_201, tokens_200, untouched, set_to,
}
use technical_assignment.Auth.Sessions.{new_token, token_row}
use technical_assignment.Common.{ℕ, Text, List, some, none, [], ◌∷◌, ◌≡◌, refl, arith}

-- The body of a request with user 7's email, or another, and this password.
abbrev body : ℕ → Text → Body
body email password = record { email = some email; password = some password }

abbrev right : Text
right = 300 ∷ 400 ∷ 0 ∷ 0 ∷ 0 ∷ 0 ∷ 0 ∷ 0 ∷ []

abbrev wrong : Text
wrong = 1 ∷ []

login_answers_alike_example :
    let refused = login host env 5 0 (some 3896) (body 70 wrong) (request_at 1000) active_db in
    let missing = login host env 5 0 (some 3896) (body 71 wrong) (request_at 1000) active_db in
    (refused.handled.response ≡ invalid_credentials_401)
    × (missing.handled.response ≡ invalid_credentials_401)
    × (refused.work ≡ verifies (argon2_params host) ∷ [])
    × (missing.work ≡ verifies (argon2_params host) ∷ [])
    × (refused.handled.cookie ≡ untouched)
    × (missing.handled.cookie ≡ untouched)
    × (record refused.handled.db { audit_log = [] } ≡ active_db)
    × (record missing.handled.db { audit_log = [] } ≡ active_db)
    × (refused.dummy_hash ≡ some 3896)
    × (missing.dummy_hash ≡ some 3896)
unfolding parse_login hash_password init_dummy_hash argon2_params verify_password
login_answers_alike_example =
    login_answers_alike host env 5 0 0 0 3896 right (body 70 wrong) (body 71 wrong)
      (request_at 1000) active_db host-IsArgon2 (λ n. refl) refl refl refl refl refl refl refl

register_then_login_example :
    let first = register host (body 80 right) 0 (request_at 1000) active_db in
    let then_in = (login host env 6 0 none (body 80 right) (request_at 2000) first.db).handled in
    (first.response ≡ registered_201 3)
    × (then_in.response ≡ tokens_200 (record { sub = 3; email = 80; tv = 0 }))
    × (then_in.cookie ≡ set_to 300)
    × (token_row host 300 then_in.db ≡ some (new_token host env (draw_at 2000) 3 6))
unfolding parse_register parse_login hash_password argon2_params
register_then_login_example =
    register_then_login host env 6 0 0 none (body 80 right) (body 80 right) (request_at 1000)
      (request_at 2000) active_db host-IsArgon2 (λ n. refl) (λ n. refl) refl refl refl refl refl
      refl refl (refl, refl)

active_db-IsKeyed : IsKeyed active_db
active_db-IsKeyed = record {
  user_ids = λ k. ground arith;
  emails = λ k. ground arith;
  token_ids = λ k. ground arith;
  hashes = λ k. ground arith;
}

abbrev calls : List Call
calls =
    refreshes (some 100) (request_at 1000)
    ∷ registers (body 80 right) 0 (request_at 1500)
    ∷ logs_in 6 0 none (body 70 right) (request_at 2000)
    ∷ logs_out (some 100) (request_at 2500)
    ∷ logs_out_all (some 100) (request_at 3000)
    ∷ []

requests_keep_books_example :
    IsKeyed (serve_all host env calls active_db)
    × IsLater active_db (serve_all host env calls active_db)
requests_keep_books_example = requests_keep_books host env calls active_db active_db-IsKeyed
