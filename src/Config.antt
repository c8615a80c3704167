-- ===== src/Config.antt =====
-- packages/be-core/src/env.ts and the files config/env.ts of the three services: what a service takes
-- from its environment. The schemas are zod's, whose checks are written out: `default` stands for a
-- variable that is not set, `min` counts code units, and a failed check throws, which is `none` here.
mod Tests
pub mod Sample
pub mod Services
pub mod Checks
pub mod Bounds
use technical_assignment.Common.{
  ℕ, List, Option, Text, ◌∷◌, if◌then◌else◌, some, none, leb, text_eq, [], suc, length, zero,
}

-- The variables of process.env that the schemas read.
pub record ProcessEnv : Type 0 where
  pub node_env : Option Text
  pub log_level : Option Text
  pub port : Option Text
  pub cors_origins : Option Text
  pub postgres_host : Option Text
  pub postgres_port : Option Text
  pub postgres_user : Option Text
  pub postgres_password : Option Text
  pub postgres_db : Option Text
  pub postgres_pool_max : Option Text
  pub rabbitmq_url : Option Text
  pub redis_url : Option Text
  pub jwt_secret : Option Text
  pub jwt_refresh_secret : Option Text
  pub jwt_at_ttl_seconds : Option Text
  pub seat_port : Option Text
  pub hold_ttl_seconds : Option Text
  pub sweep_interval_ms : Option Text
  pub sweep_batch_limit : Option Text
  pub retry_after_seconds : Option Text
  pub rate_limit_seat_max : Option Text
  pub rate_limit_seat_window_ms : Option Text
  pub payment_port : Option Text
  pub webhook_tolerance_ms : Option Text
  pub psp_timeout_ms : Option Text
  pub psp_cb_error_threshold : Option Text
  pub psp_cb_reset_ms : Option Text
  pub psp_webhook_secret : Option Text
  pub rate_limit_payment_max : Option Text
  pub rate_limit_payment_window_ms : Option Text
  pub auth_port : Option Text
  pub rt_ttl_seconds : Option Text
  pub rt_grace_seconds : Option Text
  pub argon2_memory_kib : Option Text
  pub argon2_time_cost : Option Text
  pub argon2_parallelism : Option Text
  pub rate_limit_login_max : Option Text
  pub rate_limit_login_window_ms : Option Text

-- What `Number` makes of a text: a whole number from 0 on, or another, NaN among them.
pub data Number : Type 0 where
  whole : ℕ → Number
  another : Number

infixl 5 ◌>>=◌
abbrev pub ◌>>=◌ : {A B : Type 0} → Option A → (A → Option B) → Option B
◌>>=◌ none k = none
◌>>=◌ (some a) k = k a

positive : Number → Option ℕ
positive (whole zero) = none
positive (whole (suc n)) = some (suc n)
positive another = none

-- z.coerce.number().int().positive().default(n)
unfoldable pub positive_int : (Text → Number) → ℕ → Option Text → Option ℕ
unfolding positive
positive_int number n none = some n
positive_int number n (some t) = positive (number t)

-- z.string().min(n)
unfoldable pub min_text : ℕ → Option Text → Option Text
min_text n none = none
min_text n (some t) = if leb n (length t) then some t else none

-- z.string().min(32).refine((v) => v !== placeholder)
unfoldable pub secret : Text → Option Text → Option Text
unfolding min_text
secret placeholder v = min_text 32 v >>= λ t. if text_eq t placeholder then none else some t

pub data NodeEnv : Type 0 where
  development testing production : NodeEnv

pub data LogLevel : Type 0 where
  debug info warn error : LogLevel

abbrev pub jwt_secret_placeholder : Text
jwt_secret_placeholder =
    67 ∷ 72 ∷ 65 ∷ 78 ∷ 71 ∷ 69 ∷ 95 ∷ 77 ∷ 69 ∷ 95 ∷ 69 ∷ 88 ∷ 65 ∷ 77 ∷ 80 ∷ 76 ∷ 69 ∷ 95 ∷ 83
    ∷ 69 ∷ 67 ∷ 82 ∷ 69 ∷ 84 ∷ 95 ∷ 68 ∷ 79 ∷ 95 ∷ 78 ∷ 79 ∷ 84 ∷ 95 ∷ 85 ∷ 83 ∷ 69 ∷ []

abbrev pub jwt_refresh_secret_placeholder : Text
jwt_refresh_secret_placeholder =
    67 ∷ 72 ∷ 65 ∷ 78 ∷ 71 ∷ 69 ∷ 95 ∷ 77 ∷ 69 ∷ 95 ∷ 69 ∷ 88 ∷ 65 ∷ 77 ∷ 80 ∷ 76 ∷ 69 ∷ 95 ∷ 82
    ∷ 69 ∷ 70 ∷ 82 ∷ 69 ∷ 83 ∷ 72 ∷ 95 ∷ 83 ∷ 69 ∷ 67 ∷ 82 ∷ 69 ∷ 84 ∷ 95 ∷ 68 ∷ 79 ∷ 95 ∷ 78 ∷ 79
    ∷ 84 ∷ 95 ∷ 85 ∷ 83 ∷ 69 ∷ []

-- z.enum([…]).default(d)
unfoldable pub one_of : {A : Type 0} → List (Text × A) → A → Option Text → Option A
one_of cases d none = some d
one_of [] d (some t) = none
one_of ((name, a) ∷ cases) d (some t) =
    let rest = one_of cases d (some t) in if text_eq t name then some a else rest

abbrev node_envs : List (Text × NodeEnv)
node_envs =
    ((100 ∷ 101 ∷ 118 ∷ 101 ∷ 108 ∷ 111 ∷ 112 ∷ 109 ∷ 101 ∷ 110 ∷ 116 ∷ []), development)
    ∷ ((116 ∷ 101 ∷ 115 ∷ 116 ∷ []), testing)
    ∷ ((112 ∷ 114 ∷ 111 ∷ 100 ∷ 117 ∷ 99 ∷ 116 ∷ 105 ∷ 111 ∷ 110 ∷ []), production)
    ∷ []

abbrev log_levels : List (Text × LogLevel)
log_levels =
    ((100 ∷ 101 ∷ 98 ∷ 117 ∷ 103 ∷ []), debug)
    ∷ ((105 ∷ 110 ∷ 102 ∷ 111 ∷ []), info)
    ∷ ((119 ∷ 97 ∷ 114 ∷ 110 ∷ []), warn)
    ∷ ((101 ∷ 114 ∷ 114 ∷ 111 ∷ 114 ∷ []), error)
    ∷ []

-- baseEnv. Each service puts its own REDIS_URL, which is required, over the optional one.
pub record BaseEnv : Type 0 where
  pub node_env : NodeEnv
  pub log_level : LogLevel
  pub port : ℕ
  pub cors_origins : Text
  pub postgres_host : Text
  pub postgres_port : ℕ
  pub postgres_user : Text
  pub postgres_password : Text
  pub postgres_db : Text
  pub postgres_pool_max : ℕ
  pub rabbitmq_url : Text

pub record JwtEnv : Type 0 where
  pub jwt_secret : Text
  pub jwt_refresh_secret : Text
  pub jwt_at_ttl_seconds : ℕ

module _ (number : Text → Number) where
  unfoldable pub base_env : ProcessEnv → Option BaseEnv
  unfolding positive_int min_text
  base_env env = do
    node_env ← one_of node_envs development env.node_env
    log_level ← one_of log_levels info env.log_level
    port ← positive_int number 4000 env.port
    cors_origins ← min_text 1 env.cors_origins
    postgres_host ← min_text 1 env.postgres_host
    postgres_port ← positive_int number 5432 env.postgres_port
    postgres_user ← min_text 1 env.postgres_user
    postgres_password ← min_text 1 env.postgres_password
    postgres_db ← min_text 1 env.postgres_db
    postgres_pool_max ← positive_int number 20 env.postgres_pool_max
    rabbitmq_url ← min_text 1 env.rabbitmq_url
    some (record {
      node_env = node_env;
      log_level = log_level;
      port = port;
      cors_origins = cors_origins;
      postgres_host = postgres_host;
      postgres_port = postgres_port;
      postgres_user = postgres_user;
      postgres_password = postgres_password;
      postgres_db = postgres_db;
      postgres_pool_max = postgres_pool_max;
      rabbitmq_url = rabbitmq_url;
    })

  unfoldable pub jwt_env : ProcessEnv → Option JwtEnv
  unfolding positive_int min_text
  jwt_env env = do
    jwt_secret ← secret jwt_secret_placeholder env.jwt_secret
    jwt_refresh_secret ← secret jwt_refresh_secret_placeholder env.jwt_refresh_secret
    jwt_at_ttl_seconds ← positive_int number 900 env.jwt_at_ttl_seconds
    some (record {
      jwt_secret = jwt_secret;
      jwt_refresh_secret = jwt_refresh_secret;
      jwt_at_ttl_seconds = jwt_at_ttl_seconds;
    })
