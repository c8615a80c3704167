-- ===== src/Config/Services.antt =====
-- config/env.ts of apps/seat-reservation, apps/payment and apps/auth.
use technical_assignment.Config.{
  ◌>>=◌, BaseEnv, ProcessEnv, JwtEnv, Number, base_env, jwt_env, positive_int, min_text,
}
use technical_assignment.Common.{none, some, ℕ, Text, Option}

pub record SeatEnv : Type 0 where
  pub base : BaseEnv
  pub redis_url : Text
  pub jwt : JwtEnv
  pub seat_port : ℕ
  pub hold_ttl_seconds : ℕ
  pub sweep_interval_ms : ℕ
  pub sweep_batch_limit : ℕ
  pub retry_after_seconds : ℕ
  pub rate_limit_seat_max : ℕ
  pub rate_limit_seat_window_ms : ℕ

pub record PaymentEnv : Type 0 where
  pub base : BaseEnv
  pub redis_url : Text
  pub jwt : JwtEnv
  pub payment_port : ℕ
  pub webhook_tolerance_ms : ℕ
  pub psp_timeout_ms : ℕ
  pub psp_cb_error_threshold : ℕ
  pub psp_cb_reset_ms : ℕ
  pub psp_webhook_secret : Text
  pub rate_limit_payment_max : ℕ
  pub rate_limit_payment_window_ms : ℕ

pub record AuthEnv : Type 0 where
  pub base : BaseEnv
  pub redis_url : Text
  pub jwt : JwtEnv
  pub auth_port : ℕ
  pub rt_ttl_seconds : ℕ
  pub rt_grace_seconds : ℕ
  pub argon2_memory_kib : ℕ
  pub argon2_time_cost : ℕ
  pub argon2_parallelism : ℕ
  pub rate_limit_login_max : ℕ
  pub rate_limit_login_window_ms : ℕ

module _ (number : Text → Number) where
  unfoldable pub parse_seat_env : ProcessEnv → Option SeatEnv
  unfolding base_env jwt_env positive_int min_text
  parse_seat_env env = do
    base ← base_env number env
    redis_url ← min_text 1 env.redis_url
    jwt ← jwt_env number env
    seat_port ← positive_int number 4002 env.seat_port
    hold_ttl_seconds ← positive_int number 120 env.hold_ttl_seconds
    sweep_interval_ms ← positive_int number 15000 env.sweep_interval_ms
    sweep_batch_limit ← positive_int number 100 env.sweep_batch_limit
    retry_after_seconds ← positive_int number 2 env.retry_after_seconds
    rate_limit_seat_max ← positive_int number 60 env.rate_limit_seat_max
    rate_limit_seat_window_ms ← positive_int number 60000 env.rate_limit_seat_window_ms
    some (record {
      base = base;
      redis_url = redis_url;
      jwt = jwt;
      seat_port = seat_port;
      hold_ttl_seconds = hold_ttl_seconds;
      sweep_interval_ms = sweep_interval_ms;
      sweep_batch_limit = sweep_batch_limit;
      retry_after_seconds = retry_after_seconds;
      rate_limit_seat_max = rate_limit_seat_max;
      rate_limit_seat_window_ms = rate_limit_seat_window_ms;
    })

  unfoldable pub parse_payment_env : ProcessEnv → Option PaymentEnv
  unfolding base_env jwt_env positive_int min_text
  parse_payment_env env = do
    base ← base_env number env
    redis_url ← min_text 1 env.redis_url
    jwt ← jwt_env number env
    payment_port ← positive_int number 4003 env.payment_port
    webhook_tolerance_ms ← positive_int number 300000 env.webhook_tolerance_ms
    psp_timeout_ms ← positive_int number 5000 env.psp_timeout_ms
    psp_cb_error_threshold ← positive_int number 50 env.psp_cb_error_threshold
    psp_cb_reset_ms ← positive_int number 30000 env.psp_cb_reset_ms
    psp_webhook_secret ← min_text 16 env.psp_webhook_secret
    rate_limit_payment_max ← positive_int number 30 env.rate_limit_payment_max
    rate_limit_payment_window_ms ← positive_int number 60000 env.rate_limit_payment_window_ms
    some (record {
      base = base;
      redis_url = redis_url;
      jwt = jwt;
      payment_port = payment_port;
      webhook_tolerance_ms = webhook_tolerance_ms;
      psp_timeout_ms = psp_timeout_ms;
      psp_cb_error_threshold = psp_cb_error_threshold;
      psp_cb_reset_ms = psp_cb_reset_ms;
      psp_webhook_secret = psp_webhook_secret;
      rate_limit_payment_max = rate_limit_payment_max;
      rate_limit_payment_window_ms = rate_limit_payment_window_ms;
    })

  unfoldable pub parse_auth_env : ProcessEnv → Option AuthEnv
  unfolding base_env jwt_env positive_int min_text
  parse_auth_env env = do
    base ← base_env number env
    redis_url ← min_text 1 env.redis_url
    jwt ← jwt_env number env
    auth_port ← positive_int number 4001 env.auth_port
    rt_ttl_seconds ← positive_int number 7776000 env.rt_ttl_seconds
    rt_grace_seconds ← positive_int number 10 env.rt_grace_seconds
    argon2_memory_kib ← positive_int number 65536 env.argon2_memory_kib
    argon2_time_cost ← positive_int number 3 env.argon2_time_cost
    argon2_parallelism ← positive_int number 1 env.argon2_parallelism
    rate_limit_login_max ← positive_int number 10 env.rate_limit_login_max
    rate_limit_login_window_ms ← positive_int number 60000 env.rate_limit_login_window_ms
    some (record {
      base = base;
      redis_url = redis_url;
      jwt = jwt;
      auth_port = auth_port;
      rt_ttl_seconds = rt_ttl_seconds;
      rt_grace_seconds = rt_grace_seconds;
      argon2_memory_kib = argon2_memory_kib;
      argon2_time_cost = argon2_time_cost;
      argon2_parallelism = argon2_parallelism;
      rate_limit_login_max = rate_limit_login_max;
      rate_limit_login_window_ms = rate_limit_login_window_ms;
    })

-- loadEnv, over the module's `cached` and what the schema makes of the environment: what it
-- returns, none where it throws, and `cached` after it.
unfoldable pub load_env :
    {E : Type 0} → (ProcessEnv → Option E) → Option E → ProcessEnv → Option E × Option E
load_env parse (some e) env = (some e, some e)
load_env parse none env = (parse env, parse env)
