-- ===== src/Config/Bounds.antt =====
-- What a service can rely on once it has its environment.
use technical_assignment.Config.Checks.{
  Holds, Holds-after, Holds-some, IsSecret, min_text-length, secret-IsSecret, after_positive,
}
use technical_assignment.Config.Services.{
  parse_seat_env, SeatEnv, parse_auth_env, PaymentEnv, AuthEnv, parse_payment_env,
}
use technical_assignment.Config.{
  ◌>>=◌, Number, secret, min_text, jwt_env, ProcessEnv, JwtEnv, base_env, jwt_secret_placeholder,
  jwt_refresh_secret_placeholder, BaseEnv,
}
use technical_assignment.Common.{Option, ◌<◌, Text, ◌≤◌, some, length, none, ◌≡◌, arith}

-- Both secrets are long enough and not the placeholder of their own variable in the example file; a
-- token lives for a while.
abbrev pub IsSafeJwt : JwtEnv → Type 0
IsSafeJwt e =
    IsSecret jwt_secret_placeholder e.jwt_secret
    × IsSecret jwt_refresh_secret_placeholder e.jwt_refresh_secret
    × (0 < e.jwt_at_ttl_seconds)

-- All the numbers of the seat service's own are positive.
abbrev pub IsSafeSeatEnv : SeatEnv → Type 0
IsSafeSeatEnv e =
    IsSafeJwt e.jwt
    × (0 < e.seat_port)
    × (0 < e.hold_ttl_seconds)
    × (0 < e.sweep_interval_ms)
    × (0 < e.sweep_batch_limit)
    × (0 < e.retry_after_seconds)
    × (0 < e.rate_limit_seat_max)
    × (0 < e.rate_limit_seat_window_ms)

-- All the numbers of the payment service's own are positive.
abbrev pub IsSafePaymentEnv : PaymentEnv → Type 0
IsSafePaymentEnv e =
    IsSafeJwt e.jwt
    × (0 < e.payment_port)
    × (0 < e.webhook_tolerance_ms)
    × (0 < e.psp_timeout_ms)
    × (0 < e.psp_cb_error_threshold)
    × (0 < e.psp_cb_reset_ms)
    × (16 ≤ length e.psp_webhook_secret)
    × (0 < e.rate_limit_payment_max)
    × (0 < e.rate_limit_payment_window_ms)

-- All the numbers of the auth service's own are positive.
abbrev pub IsSafeAuthEnv : AuthEnv → Type 0
IsSafeAuthEnv e =
    IsSafeJwt e.jwt
    × (0 < e.auth_port)
    × (0 < e.rt_ttl_seconds)
    × (0 < e.rt_grace_seconds)
    × (0 < e.argon2_memory_kib)
    × (0 < e.argon2_time_cost)
    × (0 < e.argon2_parallelism)
    × (0 < e.rate_limit_login_max)
    × (0 < e.rate_limit_login_window_ms)

module _ (number : Text → Number) where
  jwt_env-IsSafeJwt : (env : ProcessEnv) → Holds IsSafeJwt (jwt_env number env)
  unfolding jwt_env
  jwt_env-IsSafeJwt env =
      Holds-after (IsSecret jwt_secret_placeholder) IsSafeJwt
        (secret jwt_secret_placeholder env.jwt_secret) _
        (secret-IsSecret jwt_secret_placeholder env.jwt_secret)
        λ s h_s.
          Holds-after (IsSecret jwt_refresh_secret_placeholder) IsSafeJwt
            (secret jwt_refresh_secret_placeholder env.jwt_refresh_secret) _
            (secret-IsSecret jwt_refresh_secret_placeholder env.jwt_refresh_secret)
            λ r h_r.
              after_positive number IsSafeJwt 900 env.jwt_at_ttl_seconds _ (omega arith)
                λ t h_t. (h_s, h_r, h_t)

  anything : {A : Type 0} (m : Option A) → Holds (λ a. Unit {0}) m
  anything none = tt
  anything (some a) = tt

  -- What the three services parse first.
  after_shared :
      {B : Type 0} (Q : B → Type 0) (env : ProcessEnv) (k : BaseEnv → Text → JwtEnv → Option B)
      → ((b : BaseEnv) (r : Text) (j : JwtEnv) → IsSafeJwt j → Holds Q (k b r j))
      → Holds Q (
          base_env number env >>= λ b.
          min_text 1 env.redis_url >>= λ r. jwt_env number env >>= λ j. k b r j)
  after_shared Q env k on =
      Holds-after (λ a. Unit) Q (base_env number env) _ (anything (base_env number env))
        λ b h_b.
          Holds-after (λ a. Unit) Q (min_text 1 env.redis_url) _
            (anything (min_text 1 env.redis_url))
            λ r h_r.
              Holds-after IsSafeJwt Q (jwt_env number env) _ (jwt_env-IsSafeJwt env)
                λ j h_j. on b r j h_j

  seat_env_safe : (env : ProcessEnv) → Holds IsSafeSeatEnv (parse_seat_env number env)
  unfolding parse_seat_env
  seat_env_safe env = after_shared IsSafeSeatEnv env _ λ b r j h_j.
      after_positive number IsSafeSeatEnv 4002 env.seat_port _ (omega arith) λ v0 h0.
        after_positive number IsSafeSeatEnv 120 env.hold_ttl_seconds _ (omega arith) λ v1 h1.
          after_positive number IsSafeSeatEnv 15000 env.sweep_interval_ms _ (omega arith) λ v2 h2.
            after_positive number IsSafeSeatEnv 100 env.sweep_batch_limit _ (omega arith) λ v3 h3.
              after_positive number IsSafeSeatEnv 2 env.retry_after_seconds _ (omega arith) λ v4 h4.
                after_positive number IsSafeSeatEnv 60 env.rate_limit_seat_max _ (omega arith)
                  λ v5 h5.
                    after_positive number IsSafeSeatEnv 60000 env.rate_limit_seat_window_ms _
                      (omega arith) λ v6 h6. (h_j, h0, h1, h2, h3, h4, h5, h6)

  payment_env_safe : (env : ProcessEnv) → Holds IsSafePaymentEnv (parse_payment_env number env)
  unfolding parse_payment_env
  payment_env_safe env = after_shared IsSafePaymentEnv env _ λ b r j h_j.
      after_positive number IsSafePaymentEnv 4003 env.payment_port _ (omega arith) λ v0 h0.
        after_positive number IsSafePaymentEnv 300000 env.webhook_tolerance_ms _ (omega arith)
          λ v1 h1.
            after_positive number IsSafePaymentEnv 5000 env.psp_timeout_ms _ (omega arith) λ v2 h2.
              after_positive number IsSafePaymentEnv 50 env.psp_cb_error_threshold _ (omega arith)
                λ v3 h3.
                  after_positive number IsSafePaymentEnv 30000 env.psp_cb_reset_ms _ (omega arith)
                    λ v4 h4.
                      Holds-after (λ t. 16 ≤ length t) IsSafePaymentEnv
                        (min_text 16 env.psp_webhook_secret) _
                        (min_text-length 16 env.psp_webhook_secret)
                        λ v5 h5.
                          after_positive number IsSafePaymentEnv 30 env.rate_limit_payment_max _
                            (omega arith)
                            λ v6 h6.
                              after_positive number IsSafePaymentEnv 60000
                                env.rate_limit_payment_window_ms _ (omega arith)
                                λ v7 h7. (h_j, h0, h1, h2, h3, h4, h5, h6, h7)

  auth_env_safe : (env : ProcessEnv) → Holds IsSafeAuthEnv (parse_auth_env number env)
  unfolding parse_auth_env
  auth_env_safe env = after_shared IsSafeAuthEnv env _ λ b r j h_j.
      after_positive number IsSafeAuthEnv 4001 env.auth_port _ (omega arith) λ v0 h0.
        after_positive number IsSafeAuthEnv 7776000 env.rt_ttl_seconds _ (omega arith) λ v1 h1.
          after_positive number IsSafeAuthEnv 10 env.rt_grace_seconds _ (omega arith) λ v2 h2.
            after_positive number IsSafeAuthEnv 65536 env.argon2_memory_kib _ (omega arith) λ v3 h3.
              after_positive number IsSafeAuthEnv 3 env.argon2_time_cost _ (omega arith) λ v4 h4.
                after_positive number IsSafeAuthEnv 1 env.argon2_parallelism _ (omega arith)
                  λ v5 h5.
                    after_positive number IsSafeAuthEnv 10 env.rate_limit_login_max _ (omega arith)
                      λ v6 h6.
                        after_positive number IsSafeAuthEnv 60000 env.rate_limit_login_window_ms _
                          (omega arith) λ v7 h7. (h_j, h0, h1, h2, h3, h4, h5, h6, h7)

-- Whatever their environments, the three services start only with JWT secrets of 32 code units at
-- least, each of which is not the placeholder that the example file has for that variable, with a
-- webhook secret of 16 at least, and with a time to live of access tokens and numbers of their own
-- that are all positive.
pub environments_are_safe :
    (number : Text → Number) (env env' env'' : ProcessEnv) (e : SeatEnv) (p : PaymentEnv)
    (a : AuthEnv)
    → parse_seat_env number env ≡ some e
    → parse_payment_env number env' ≡ some p
    → parse_auth_env number env'' ≡ some a
    → IsSafeSeatEnv e × IsSafePaymentEnv p × IsSafeAuthEnv a
environments_are_safe number env env' env'' e p a seat pay auth = (
  Holds-some IsSafeSeatEnv (parse_seat_env number env) (seat_env_safe number env) seat,
  Holds-some IsSafePaymentEnv (parse_payment_env number env') (payment_env_safe number env') pay,
  Holds-some IsSafeAuthEnv (parse_auth_env number env'') (auth_env_safe number env'') auth,
)
