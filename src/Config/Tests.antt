-- ===== src/Config/Tests.antt =====
-- The environments of a service whose optional variables are left out but one.
use technical_assignment.Config.Sample.{long_secret, digit, process_env}
use technical_assignment.Config.Bounds.{
  IsSafeSeatEnv, IsSafePaymentEnv, IsSafeAuthEnv, environments_are_safe,
}
use technical_assignment.Config.{
  JwtEnv, BaseEnv, base_env, development, jwt_env, info, positive_int, min_text, secret, one_of,
}
use technical_assignment.Config.Services.{
  PaymentEnv, SeatEnv, parse_seat_env, AuthEnv, parse_payment_env, parse_auth_env,
}
use technical_assignment.Common.{◌∷◌, some, [], ◌≡◌, refl, text_eq}

abbrev base : BaseEnv
base = record {
  node_env = development;
  log_level = info;
  port = 4000;
  cors_origins = (97 ∷ []);
  postgres_host = (97 ∷ []);
  postgres_port = 5432;
  postgres_user = (97 ∷ []);
  postgres_password = (97 ∷ []);
  postgres_db = (97 ∷ []);
  postgres_pool_max = 20;
  rabbitmq_url = (97 ∷ []);
}

abbrev jwt : JwtEnv
jwt = record {
  jwt_secret = long_secret;
  jwt_refresh_secret = long_secret;
  jwt_at_ttl_seconds = 900;
}

abbrev seat_env : SeatEnv
seat_env = record {
  base = base;
  redis_url = (97 ∷ []);
  jwt = jwt;
  seat_port = 4;
  hold_ttl_seconds = 120;
  sweep_interval_ms = 15000;
  sweep_batch_limit = 100;
  retry_after_seconds = 2;
  rate_limit_seat_max = 60;
  rate_limit_seat_window_ms = 60000;
}

seat_env_parsed : parse_seat_env digit process_env ≡ some seat_env
unfolding parse_seat_env base_env jwt_env positive_int min_text secret one_of text_eq
seat_env_parsed = refl

abbrev payment_env : PaymentEnv
payment_env = record {
  base = base;
  redis_url = (97 ∷ []);
  jwt = jwt;
  payment_port = 4003;
  webhook_tolerance_ms = 300000;
  psp_timeout_ms = 5000;
  psp_cb_error_threshold = 50;
  psp_cb_reset_ms = 30000;
  psp_webhook_secret = long_secret;
  rate_limit_payment_max = 30;
  rate_limit_payment_window_ms = 60000;
}

payment_env_parsed : parse_payment_env digit process_env ≡ some payment_env
unfolding parse_payment_env base_env jwt_env positive_int min_text secret one_of text_eq
payment_env_parsed = refl

abbrev auth_env : AuthEnv
auth_env = record {
  base = base;
  redis_url = (97 ∷ []);
  jwt = jwt;
  auth_port = 4001;
  rt_ttl_seconds = 7776000;
  rt_grace_seconds = 10;
  argon2_memory_kib = 65536;
  argon2_time_cost = 3;
  argon2_parallelism = 1;
  rate_limit_login_max = 10;
  rate_limit_login_window_ms = 60000;
}

auth_env_parsed : parse_auth_env digit process_env ≡ some auth_env
unfolding parse_auth_env base_env jwt_env positive_int min_text secret one_of text_eq
auth_env_parsed = refl

environments_are_safe_example :
    IsSafeSeatEnv seat_env × IsSafePaymentEnv payment_env × IsSafeAuthEnv auth_env
environments_are_safe_example =
    environments_are_safe digit process_env process_env process_env seat_env payment_env auth_env
      seat_env_parsed payment_env_parsed auth_env_parsed
