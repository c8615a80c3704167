-- ===== src/Routes/Tests.antt =====
-- A buyer's request to hold a seat.
use technical_assignment.Auth.Controller.{AccessTokenClaims}
use technical_assignment.Auth.Guard.{Jwt, bearer, can_activate}
use technical_assignment.Auth.RateLimit.{RateLimitConfig, can_activate as window_activate}
use technical_assignment.Auth.RateLimit.Guard.{guard, runs, answer_of}
use technical_assignment.Seat.Db.{Db, SeatStatus}
use technical_assignment.Seat.Controller.{Env, hold}
use technical_assignment.Routes.{
  Caller, Ask, Done, asks_hold, seats_done, act, route, behind_guards, hold_body,
}
use technical_assignment.Routes.Holder.{acts_for_holder, Holds}
use technical_assignment.Common.{
  ℕ, Text, Option, some, none, [], ◌∷◌, ◌++◌, ◌≡◌, refl, true, steady, ==_refl, ltb, ◌==◌, ◌+◌,
  if◌then◌else◌, trim, trim_start, trim_end, is_space, starts_with, slice,
}

abbrev sum : Text → ℕ
sum [] = 0
sum (c ∷ s) = c + sum s

-- A token is the claims, the end and the sum of the secret, between two letters.
abbrev opened : Text → ℕ → Text → Option AccessTokenClaims
opened secret now (x ∷ a ∷ b ∷ c ∷ e ∷ s ∷ y ∷ []) =
    if s == sum secret
    then (if ltb now e then some (record { sub = a; email = b; tv = c }) else none)
    else none
opened secret now t = none

abbrev jwt : Jwt
jwt = record {
  sign = λ secret c iat ttl. 65 ∷ c.sub ∷ c.email ∷ c.tv ∷ (iat + ttl) ∷ sum secret ∷ 65 ∷ [];
  verify = opened;
  verify-sign = λ secret c iat ttl now. rw (==_refl (sum secret)) refl;
  trim-sign = λ secret c iat ttl. unfold trim trim_start trim_end is_space in refl;
}

abbrev key : Text
key = 3 ∷ []

-- 'seat-hold'
abbrev limit : RateLimitConfig
limit = record {
  name = 115 ∷ 101 ∷ 97 ∷ 116 ∷ 45 ∷ 104 ∷ 111 ∷ 108 ∷ 100 ∷ [];
  window_ms = 60000;
  max = 10;
}

abbrev buyer : AccessTokenClaims
buyer = record { sub = 7; email = 70; tv = 0 }

abbrev caller : Caller
caller = record {
  rate = record { forwarded_for = none; ip = some (50 ∷ []) };
  authorization = some (bearer ++ jwt.sign key buyer 1000 900);
  x_request_id = none;
  at_ms = 1500000;
  at_s = 1500;
  exec = runs;
}

abbrev hall : Db
hall = record {
  seats =
      record {
        id = 1;
        label = "A1";
        price_cents = 5000;
        currency = "USD";
        status = SeatStatus.available;
      }
      ∷ [];
  holds = [];
  outbox = record { entries = []; next_id = 1 };
  consumed_events = [];
}

abbrev env : Env
env = record { hold_ttl_seconds = 600; retry_after_seconds = 5 }

abbrev ask : Ask
ask =
    asks_hold env true 1 5 100 200 (record { date = 1500000; now = 1500000; occurred = 1500000 })
      steady steady hall

abbrev done : Done
done = seats_done (
    hold env 1 7 none 5 100 200 (record { date = 1500000; now = 1500000; occurred = 1500000 })
      steady steady hall)

acts_for_holder_example :
    (claims : AccessTokenClaims) × Holds jwt key caller claims
    × (act none ask claims.sub ≡ some done)
unfolding route behind_guards act hold_body guard answer_of can_activate window_activate starts_with
    trim slice
acts_for_holder_example =
    acts_for_holder jwt key limit caller ask (λ k. record { scores = []; expires_at = none }) done
      refl
