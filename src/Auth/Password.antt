-- ===== src/Auth/Password.antt =====
-- apps/auth/src/users/password.ts over the packages `argon2` and `node:crypto`, with its `dummyHash`.
-- A rejection of argon2 is `none`. Hashes and emails are numbers; a password is a text.
use technical_assignment.Config.{Number, whole}
use technical_assignment.Common.{ℕ, Text, Option, none, some, Bool, false, List, [], ◌∷◌, ◌≡◌, true}

pub record Argon2Params : Type 0 where
  pub memory_cost : Number
  pub time_cost : Number
  pub parallelism : Number

-- What the service calls of JavaScript, of Node.js with its `process.env`, and of the packages
-- `argon2` and zod. The second argument of `argon2_hash` is the random salt; `argon2_params_in`
-- reads the parameters that an encoded hash carries, which are what its verification costs.
pub record Host : Type 0 where
  pub to_lower_case : ℕ → ℕ
  pub is_email : ℕ → Bool
  pub number : Text → Number
  pub argon2_memory_kib : Option Text
  pub argon2_time_cost : Option Text
  pub argon2_parallelism : Option Text
  pub argon2_hash : Argon2Params → ℕ → Text → Option ℕ
  pub argon2_verify : ℕ → Text → Option Bool
  pub argon2_params_in : ℕ → Argon2Params
  pub sha256 : ℕ → ℕ

-- What the documentation of argon2 says of a hash: it carries its parameters, it verifies the text
-- that it was made of, and no text makes its verification reject.
pub record IsArgon2 (host : Host) : Type 0 where
  pub params_in :
      (p : Argon2Params) (salt : ℕ) (t : Text) {h : ℕ}
      → host.argon2_hash p salt t ≡ some h
      → host.argon2_params_in h ≡ p
  pub verifies_own :
      (p : Argon2Params) (salt : ℕ) (t : Text) {h : ℕ}
      → host.argon2_hash p salt t ≡ some h
      → host.argon2_verify h t ≡ some true
  pub verifies_any :
      (p : Argon2Params) (salt : ℕ) (t other : Text) {h : ℕ}
      → host.argon2_hash p salt t ≡ some h
      → (b : Bool) × (host.argon2_verify h other ≡ some b)

-- The calls of argon2 that one request makes.
pub data Work : Type 0 where
  hashes verifies : Argon2Params → Work

-- Number(process.env.X ?? n)
abbrev env_number : Host → ℕ → Option Text → Number
env_number host n none = whole n
env_number host n (some t) = host.number t

unfoldable pub argon2_params : Host → Argon2Params
argon2_params host = record {
  memory_cost = env_number host 65536 host.argon2_memory_kib;
  time_cost = env_number host 3 host.argon2_time_cost;
  parallelism = env_number host 1 host.argon2_parallelism;
}

unfoldable pub hash_password : Host → ℕ → Text → Option ℕ
hash_password host salt plain = host.argon2_hash (argon2_params host) salt plain

-- catch { return false; }
abbrev or_false : Option Bool → Bool
or_false (some b) = b
or_false none = false

unfoldable pub verify_password : Host → ℕ → Text → Bool
verify_password host hash plain = or_false (host.argon2_verify hash plain)

-- 'dummy-password-for-timing-equalization'
abbrev pub dummy_password : Text
dummy_password =
    100 ∷ 117 ∷ 109 ∷ 109 ∷ 121 ∷ 45 ∷ 112 ∷ 97 ∷ 115 ∷ 115 ∷ 119 ∷ 111 ∷ 114 ∷ 100 ∷ 45 ∷ 102 ∷ 111
    ∷ 114 ∷ 45 ∷ 116 ∷ 105 ∷ 109 ∷ 105 ∷ 110 ∷ 103 ∷ 45 ∷ 101 ∷ 113 ∷ 117 ∷ 97 ∷ 108 ∷ 105 ∷ 122
    ∷ 97 ∷ 116 ∷ 105 ∷ 111 ∷ 110 ∷ []

-- 'does-not-matter'
abbrev pub does_not_matter : Text
does_not_matter =
    100 ∷ 111 ∷ 101 ∷ 115 ∷ 45 ∷ 110 ∷ 111 ∷ 116 ∷ 45 ∷ 109 ∷ 97 ∷ 116 ∷ 116 ∷ 101 ∷ 114 ∷ []

-- The value of `dummyHash` after it, unless argon2 rejects.
unfoldable pub init_dummy_hash : Host → ℕ → Option ℕ
init_dummy_hash host salt = host.argon2_hash (argon2_params host) salt dummy_password

-- What a check of a password gives (`none` where it throws), the `dummyHash` that it leaves, and
-- the calls of argon2 that it made.
pub record Checked : Type 0 where
  pub result : Option Bool
  pub dummy_hash : Option ℕ
  pub work : List Work

always_false : Option Bool → Option Bool
always_false (some b) = some false
always_false none = none

verify_dummy : Host → List Work → ℕ → Checked
unfolding always_false
verify_dummy host before dummy = record {
  result = always_false (host.argon2_verify dummy does_not_matter);
  dummy_hash = some dummy;
  work = verifies (host.argon2_params_in dummy) ∷ before;
}

after_init : Host → Option ℕ → Checked
unfolding verify_dummy
after_init host (some dummy) = verify_dummy host (hashes (argon2_params host) ∷ []) dummy
after_init host none = record {
  result = none;
  dummy_hash = none;
  work = hashes (argon2_params host) ∷ [];
}

-- `verifyDummyPassword`, with the salt that `initDummyHash` would draw.
unfoldable pub verify_dummy_password : Host → ℕ → Option ℕ → Checked
unfolding after_init init_dummy_hash
verify_dummy_password host salt none = after_init host (init_dummy_hash host salt)
verify_dummy_password host salt (some dummy) = verify_dummy host [] dummy
