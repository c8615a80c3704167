-- ===== src/Config/Sample.antt =====
-- An environment in which the optional variables are left out but one.
use technical_assignment.Config.{ProcessEnv, Number, whole, another}
use technical_assignment.Common.{Text, none, ◌∷◌, [], some, if◌then◌else◌, leb, ◌-◌}

-- The digits 0 to 9.
abbrev pub digit : Text → Number
digit (c ∷ []) = if leb 48 c then (if leb c 57 then whole (c - 48) else another) else another
digit t = another

abbrev pub long_secret : Text
long_secret =
    115 ∷ 115 ∷ 115 ∷ 115 ∷ 115 ∷ 115 ∷ 115 ∷ 115 ∷ 115 ∷ 115 ∷ 115 ∷ 115 ∷ 115 ∷ 115 ∷ 115 ∷ 115
    ∷ 115 ∷ 115 ∷ 115 ∷ 115 ∷ 115 ∷ 115 ∷ 115 ∷ 115 ∷ 115 ∷ 115 ∷ 115 ∷ 115 ∷ 115 ∷ 115 ∷ 115 ∷ 115
    ∷ 115 ∷ []

abbrev pub process_env : ProcessEnv
process_env = record {
  node_env = none;
  log_level = none;
  port = none;
  cors_origins = some (97 ∷ []);
  postgres_host = some (97 ∷ []);
  postgres_port = none;
  postgres_user = some (97 ∷ []);
  postgres_password = some (97 ∷ []);
  postgres_db = some (97 ∷ []);
  postgres_pool_max = none;
  rabbitmq_url = some (97 ∷ []);
  redis_url = some (97 ∷ []);
  jwt_secret = some long_secret;
  jwt_refresh_secret = some long_secret;
  jwt_at_ttl_seconds = none;
  seat_port = some (52 ∷ []);
  hold_ttl_seconds = none;
  sweep_interval_ms = none;
  sweep_batch_limit = none;
  retry_after_seconds = none;
  rate_limit_seat_max = none;
  rate_limit_seat_window_ms = none;
  payment_port = none;
  webhook_tolerance_ms = none;
  psp_timeout_ms = none;
  psp_cb_error_threshold = none;
  psp_cb_reset_ms = none;
  psp_webhook_secret = some long_secret;
  rate_limit_payment_max = none;
  rate_limit_payment_window_ms = none;
  auth_port = none;
  rt_ttl_seconds = none;
  rt_grace_seconds = none;
  argon2_memory_kib = none;
  argon2_time_cost = none;
  argon2_parallelism = none;
  rate_limit_login_max = none;
  rate_limit_login_window_ms = none;
}
