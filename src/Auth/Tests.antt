-- ===== src/Auth/Tests.antt =====
-- The theorems of the authentication service on one user and one session.
mod Logins
mod Limits
use technical_assignment.Auth.Password.{
  Host, IsArgon2, Argon2Params, argon2_params, hash_password, init_dummy_hash, verify_password,
  verifies,
}
use technical_assignment.Auth.Login.{Body, parse_login, parse_register, login, register}
use technical_assignment.Config.{Number, whole, another}
use technical_assignment.Auth.Controller.{invalid_credentials_401, registered_201, logout}
use technical_assignment.Auth.Guard.Stale.{tokens_outlive_logout}
use technical_assignment.Auth.Controller.Owner.{IsUsable, tokens_only_for_owner}
use technical_assignment.Auth.Guard.{
  can_activate as can_activate_guard, authenticated, bearer, Jwt, sign_token,
}
use technical_assignment.Auth.Controller.Refresh.{
  logout_all_spares_grace, reuse_revokes_family, refresh_and_retry,
}
use technical_assignment.Contracts.{uuid}
use technical_assignment.Auth.Users.{user_row, find_by_id, record_audit}
use technical_assignment.Auth.Sessions.{rotate, Draw, Env, token_row, new_token, find_by_raw}
use technical_assignment.Auth.Controller.{
  refresh, logout_all, Request, tokens_200, reuse_detected_401, no_content_204, sign_access_token,
  cleared, set_to, untouched, AccessTokenClaims,
}
use technical_assignment.Common.{
  ℕ, ◌≡◌, refl, ◌∷◌, some, none, steady, [], ◌+◌, false, ◌==◌, count_where, arith, Text, ==_refl,
  Option, leb, ◌++◌, trim, trim_start, if◌then◌else◌, trim_end, ltb, is_space, true, ◌&&◌, ap,
  Bool-cases, inl, sym, inr,
}
use technical_assignment.Auth.Db.{Db, UserRow, RefreshTokenRow, live_in_family}

abbrev usual : Argon2Params
usual = record { memory_cost = whole 65536; time_cost = whole 3; parallelism = whole 1 }

abbrev sum : Text → ℕ
sum [] = 0
sum (c ∷ s) = c + sum s

-- An argon2 that only takes the usual parameters, and whose hash is the sum of the code units.
abbrev hash_at : Number → Number → Number → Text → Option ℕ
hash_at (whole m) (whole t) (whole p) plain =
    if (m == 65536) && ((t == 3) && (p == 1)) then some (sum plain) else none
hash_at (whole m) (whole t) another plain = none
hash_at (whole m) another p plain = none
hash_at another t p plain = none

abbrev host : Host
host = record {
  to_lower_case = λ e. e;
  is_email = λ e. true;
  number = λ t. another;
  argon2_memory_kib = none;
  argon2_time_cost = none;
  argon2_parallelism = none;
  argon2_hash = λ p salt t. hash_at p.memory_cost p.time_cost p.parallelism t;
  argon2_verify = λ h t. some (h == sum t);
  argon2_params_in = λ h. usual;
  sha256 = λ raw. raw + 10;
}

hash_at-usual :
    (m t p : Number) (plain : Text) {h : ℕ}
    → hash_at m t p plain ≡ some h
    → (usual ≡ record { memory_cost = m; time_cost = t; parallelism = p }) × (h ≡ sum plain)
hash_at-usual (whole m) (whole t) (whole p) plain {h} e =
    elim (Bool-cases ((m == 65536) && ((t == 3) && (p == 1)))) [
      | inl fits ↦
          let is_m : m ≡ 65536 = ground (arith, fits) in
          let is_t : t ≡ 3 = ground (arith, fits) in
          let is_p : p ≡ 1 = ground (arith, fits) in
          let same : sum plain ≡ h = ground (arith, fits, e) in
          (rw (is_m, is_t, is_p) refl, sym same)
      | inr fails ↦ absurd (ground (arith, fails, e))
    ]
hash_at-usual (whole m) (whole t) another plain e = absurd (cc)
hash_at-usual (whole m) another p plain e = absurd (cc)
hash_at-usual another t p plain e = absurd (cc)

host-IsArgon2 : IsArgon2 host
host-IsArgon2 = record {
  params_in = λ p salt t e. (hash_at-usual p.memory_cost p.time_cost p.parallelism t e).0;
  verifies_own = λ p salt t e.
      rw ((hash_at-usual p.memory_cost p.time_cost p.parallelism t e).1)
        (ap some (==_refl (sum t)));
  verifies_any = λ p salt t other {h} e. (h == sum other, refl);
}

abbrev env : Env
env = record { rt_ttl_seconds = 7776000; rt_grace_seconds = 30 }

abbrev user : UserRow
user = record { id = 7; email = 70; password_hash = 700; token_version = 0; created_at = 1 }

abbrev token : RefreshTokenRow
token = record {
  id = 1;
  user_id = 7;
  family_id = 5;
  token_hash = 110;
  rotated_to = none;
  revoked_at = none;
  expires_at = 1000000;
  grace_until = none;
  created_at = 1;
}

abbrev spent : RefreshTokenRow
spent = record token { rotated_to = some 2; revoked_at = some 1000; grace_until = some 31000 }

abbrev next_token : RefreshTokenRow
next_token = record token { id = 2; token_hash = 210 }

abbrev active_db : Db
active_db = record { users = user ∷ []; tokens = token ∷ []; audit_log = [] }

abbrev rotated_db : Db
rotated_db = record { users = user ∷ []; tokens = spent ∷ next_token ∷ []; audit_log = [] }

abbrev draw_at : ℕ → Draw
draw_at t = record { raw = 300; id = 3; date = t; now = t }

abbrev request_at : ℕ → Request
request_at t = record { trace_id = uuid 5; ip = none; links = λ n. steady; draw = draw_at t }

refresh_and_retry_example :
    let first = refresh host env (some 100) (request_at 1000) active_db in
    let retry = refresh host env (some 100) (request_at 2000) first.db in
    (first.response ≡ tokens_200 (sign_access_token user))
    × (first.cookie ≡ set_to 300)
    × (token_row host 300 first.db ≡ some (new_token host env (draw_at 1000) 7 5))
    × (retry.response ≡ tokens_200 (sign_access_token user))
    × (retry.cookie ≡ untouched)
    × (retry.db.tokens ≡ first.db.tokens)
refresh_and_retry_example =
    refresh_and_retry host env 100 (request_at 1000) (request_at 2000) active_db (λ n. refl)
      (λ n. refl) refl refl (omega arith) (omega arith) refl refl (refl, refl) (omega arith)

reuse_revokes_family_example :
    let h = refresh host env (some 100) (request_at 50000) rotated_db in
    (h.response ≡ reuse_detected_401)
    × (h.cookie ≡ cleared)
    × (count_where (live_in_family 5) h.db.tokens ≡ 0)
reuse_revokes_family_example =
    reuse_revokes_family host env 100 (request_at 50000) rotated_db (λ n. refl) refl (omega arith)
      refl refl

logout_all_spares_grace_example :
    let out = logout_all host (some 100) (request_at 2000) rotated_db in
    (out.response ≡ no_content_204)
    × ((refresh host env (some 100) (request_at 3000) out.db).response
        ≡ tokens_200 (record { sub = 7; email = 70; tv = 1 }))
logout_all_spares_grace_example =
    logout_all_spares_grace host env 100 (request_at 2000) (request_at 3000) rotated_db (λ n. refl)
      (λ n. refl) refl (omega arith) refl refl refl

first_answer :
    (refresh host env (some 100) (request_at 1000) active_db).response
    ≡ tokens_200 (sign_access_token user)
unfolding refresh find_by_raw find_by_id rotate record_audit sign_access_token
first_answer = refl

tokens_only_for_owner_example :
    (row : RefreshTokenRow) × (u : UserRow) × (token_row host 100 active_db ≡ some row)
    × (user_row row.user_id active_db ≡ some u)
    × (sign_access_token user ≡ sign_access_token u)
    × (leb row.expires_at 1000 ≡ false)
    × IsUsable row 1000 row.revoked_at
tokens_only_for_owner_example =
    tokens_only_for_owner host env 100 (request_at 1000) active_db (sign_access_token user)
      first_answer

-- A token is its claims, its end and the sum of the secret, between two letters.
abbrev opened : Text → ℕ → Text → Option AccessTokenClaims
opened key now (x ∷ a ∷ b ∷ c ∷ e ∷ s ∷ y ∷ []) =
    if s == sum key
    then (if ltb now e then some (record { sub = a; email = b; tv = c }) else none)
    else none
opened key now t = none

abbrev jwt : Jwt
jwt = record {
  sign = λ key c iat ttl. 65 ∷ c.sub ∷ c.email ∷ c.tv ∷ (iat + ttl) ∷ sum key ∷ 65 ∷ [];
  verify = opened;
  verify-sign = λ key c iat ttl now. rw (==_refl (sum key)) refl;
  trim-sign = λ key c iat ttl. unfold trim trim_start trim_end is_space in refl;
}

abbrev key : Text
key = 1 ∷ 2 ∷ []

tokens_outlive_logout_example :
    let one = logout host (some 100) (request_at 2000) active_db in
    let all = logout_all host (some 100) (request_at 2000) active_db in
    (one.response ≡ no_content_204)
    × (user_row 7 one.db ≡ some (record user { token_version = 1 }))
    × (all.response ≡ no_content_204)
    × (user_row 7 all.db ≡ some (record user { token_version = 1 }))
    × (can_activate_guard jwt key 1500 (some (bearer ++ sign_token jwt key 900 1000 user)) none
        ≡ authenticated (record { user_id = 7; email = 70; token_version = 0; trace_id = none }))
tokens_outlive_logout_example =
    tokens_outlive_logout host jwt key 900 1000 1500 none 100 (request_at 2000) active_db
      (λ n. refl) refl refl (omega arith)
