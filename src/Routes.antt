-- ===== src/Routes.antt =====
-- The routes of the seat and the payment service from the request on: the guard of the application,
-- common/rate-limit.guard.ts, then `JwtAuthGuard`, then the body, then the handler of
-- apps/seat-reservation/src/seats/seats.controller.ts or of
-- apps/payment/src/checkout/checkout.controller.ts. The application has the first guard from the
-- providers of app.module.ts.
mod Tests
pub mod Holder
use technical_assignment.Auth.RateLimit.{RateLimitConfig}
use technical_assignment.Auth.RateLimit.Guard.{
  HttpRequest, Exec, Redis, Headers, guard, passes, rate_limited_429,
}
use technical_assignment.Auth.RateLimit.Guard.{Guarded as Limited}
use technical_assignment.Auth.Guard.{Jwt, AuthenticatedUser, Guarded, authenticated, can_activate}
use technical_assignment.Contracts.{TraceId}
use technical_assignment.Seat.Db.{Db as SeatDb}
use technical_assignment.Seat.Holds.{Clock}
use technical_assignment.Seat.Controller.{Env as SeatEnv, Outcome as SeatOutcome, hold, release}
use technical_assignment.Payment.Db.{Db as PayDb}
use technical_assignment.Payment.Breaker.{Env, Breaker, Call}
use technical_assignment.Payment.Checkout.{
  CheckoutDto, CreateIntentOpts, CreateIntentResult, Run, Outcome, checkout,
}
use mathlib.Core.Option.{map as map_option}
use technical_assignment.Common.{ℕ, Text, Bool, Option, some, none, Link, if◌then◌else◌}

-- What the guards read of a request, with the clock in milliseconds and in seconds, and what Redis
-- does with the transaction of the first.
pub record Caller : Type 0 where
  pub rate : HttpRequest
  pub authorization : Option Text
  pub x_request_id : Option TraceId
  pub at_ms : ℕ
  pub at_s : ℕ
  pub exec : Exec

-- What becomes of a request: the answer of a guard, the 500 of an exception before the handler has
-- done anything, or the work of the handler.
pub data Routed (A : Type 0) : Type 0 where
  limited_429 : Headers → (retry_after : ℕ) → Routed A
  missing_token_401 invalid_token_401 internal_error_500 : Routed A
  handled : A → Routed A

abbrev behind_limit : {A : Type 0} → Limited → Routed A → Routed A
behind_limit (passes h) rest = rest
behind_limit (rate_limited_429 h t) rest = limited_429 h t
behind_limit Limited.internal_error_500 rest = internal_error_500

abbrev behind_jwt : {A : Type 0} → Guarded → (AuthenticatedUser → Routed A) → Routed A
behind_jwt (authenticated user) rest = rest user
behind_jwt Guarded.missing_token_401 rest = missing_token_401
behind_jwt Guarded.invalid_token_401 rest = invalid_token_401

-- The two guards, with the user that the second leaves in the request.
unfoldable pub behind_guards :
    {A : Type 0}
    → Jwt
    → Text
    → RateLimitConfig
    → Caller
    → Redis
    → (AuthenticatedUser → Routed A)
    → Routed A × Redis
behind_guards jwt secret cfg c redis rest =
    let limit = guard (some cfg) c.rate c.at_ms c.exec redis in
    (
      behind_limit limit.0
          (behind_jwt (can_activate jwt secret c.at_s c.authorization c.x_request_id) rest),
      limit.1,
    )

-- POST :id/hold; `is_object` says whether HoldBodySchema takes the body.
unfoldable pub hold_body :
    SeatEnv
    → Option TraceId
    → Bool
    → (seat trace hold_id event_id : ℕ) → Clock
    → Link
    → Link
    → SeatDb
    → (user : ℕ) → Option SeatOutcome
hold_body env header is_object seat trace hold_id event_id clock l l' d user =
    if is_object then some (hold env seat user header trace hold_id event_id clock l l' d) else none

-- POST checkout; `body` is what CheckoutDto makes of the body, nothing where it throws.
unfoldable pub checkout_body :
    Env
    → (CreateIntentOpts → Call CreateIntentResult)
    → Option CheckoutDto
    → Run
    → (PayDb → PayDb)
    → Breaker
    → PayDb
    → (user : ℕ) → Option Outcome
checkout_body env psp none r meanwhile b d user = none
checkout_body env psp (some dto) r meanwhile b d user =
    some (checkout env psp dto user r meanwhile b d)

-- A request for one of the three handlers, with what its run meets. A release has no body.
pub data Ask : Type 0 where
  asks_hold :
      SeatEnv
      → (is_object : Bool) → (seat trace hold_id event_id : ℕ) → Clock
      → Link
      → Link
      → SeatDb
      → Ask
  asks_release : (seat trace event_id : ℕ) → Clock → Link → Link → (SeatDb → SeatDb) → SeatDb → Ask
  asks_checkout :
      Env
      → (CreateIntentOpts → Call CreateIntentResult)
      → Option CheckoutDto
      → Run
      → (PayDb → PayDb)
      → Breaker
      → PayDb
      → Ask

pub data Done : Type 0 where
  seats_done : SeatOutcome → Done
  payment_done : Outcome → Done

-- What the handler does for a user; nothing where the schema throws.
unfoldable pub act : Option TraceId → Ask → (user : ℕ) → Option Done
unfolding hold_body checkout_body
act header (asks_hold env is_object seat trace hold_id event_id clock l l' d) user =
    map_option seats_done
      (hold_body env header is_object seat trace hold_id event_id clock l l' d user)
act header (asks_release seat trace event_id clock l l' meanwhile d) user =
    some (seats_done (release seat user header trace event_id clock l l' meanwhile d))
act header (asks_checkout env psp body r meanwhile b d) user =
    map_option payment_done (checkout_body env psp body r meanwhile b d user)

abbrev or_500 : Option Done → Routed Done
or_500 none = internal_error_500
or_500 (some done) = handled done

-- The whole way of a request; the configuration is that of the handler's decorator.
unfoldable pub route : Jwt → Text → RateLimitConfig → Caller → Ask → Redis → Routed Done × Redis
unfolding behind_guards
route jwt secret cfg c ask redis =
    behind_guards jwt secret cfg c redis (λ user. or_500 (act c.x_request_id ask user.user_id))
