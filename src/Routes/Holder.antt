-- ===== src/Routes/Holder.antt =====
-- For whom the handlers act.
use technical_assignment.Auth.Guard.{
  Jwt, AuthenticatedUser, Guarded, can_activate, authenticated, bearer, user_of,
}
use technical_assignment.Auth.Guard.Access.{authenticated_iff}
use technical_assignment.Auth.Controller.{AccessTokenClaims}
use technical_assignment.Auth.RateLimit.{RateLimitConfig}
use technical_assignment.Auth.RateLimit.Guard.{
  Redis, Headers, guard, passes, Guarded as Limited, rate_limited_429,
}
use technical_assignment.Routes.{
  Caller, Routed, handled, behind_guards, behind_limit, behind_jwt, Ask, Done, act, or_500, route,
}
use technical_assignment.Common.{Text, Option, some, none, trim, ◌++◌, ◌≡◌, refl}

-- The caller's header carries a token that `jsonwebtoken` verifies now, with these claims.
abbrev pub Holds : Jwt → Text → Caller → AccessTokenClaims → Type 0
Holds jwt secret c claims =
    (token : Text) × (c.authorization ≡ some (bearer ++ token))
    × (jwt.verify secret c.at_s (trim token) ≡ some claims)

behind_jwt-handled :
    {A : Type 0} {G : Type 0} {a : A} (g : Guarded) (rest : AuthenticatedUser → Routed A)
    → behind_jwt g rest ≡ handled a
    → ((user : AuthenticatedUser) → g ≡ authenticated user → rest user ≡ handled a → G)
    → G
behind_jwt-handled (authenticated user) rest e k = k user refl e
behind_jwt-handled Guarded.missing_token_401 rest e k = absurd (cc)
behind_jwt-handled Guarded.invalid_token_401 rest e k = absurd (cc)

behind_limit-handled :
    {A : Type 0} {G : Type 0} {a : A} (x : Limited) (rest : Routed A)
    → behind_limit x rest ≡ handled a
    → ((h : Option Headers) → x ≡ passes h → rest ≡ handled a → G)
    → G
behind_limit-handled (passes h) rest e k = k h refl e
behind_limit-handled (rate_limited_429 h t) rest e k = absurd (cc)
behind_limit-handled Limited.internal_error_500 rest e k = absurd (cc)

-- What stands behind the two guards acts for the user of the claims.
behind_guards-Holds :
    {A : Type 0} (jwt : Jwt) (secret : Text) (cfg : RateLimitConfig) (c : Caller) (redis : Redis)
    (rest : AuthenticatedUser → Routed A) {a : A}
    → (behind_guards jwt secret cfg c redis rest).0 ≡ handled a
    → (claims : AccessTokenClaims) × Holds jwt secret c claims
      × (rest (user_of c.x_request_id claims) ≡ handled a)
unfolding behind_guards
behind_guards-Holds jwt secret cfg c redis rest e =
    behind_limit-handled (guard (some cfg) c.rate c.at_ms c.exec redis).0 _ e (λ h passed e'.
      behind_jwt-handled (can_activate jwt secret c.at_s c.authorization c.x_request_id) rest e'
        (λ user let_in e''.
          let (token, claims, header, seen, who) =
            (authenticated_iff jwt secret c.at_s c.authorization c.x_request_id user).0 let_in in
          (claims, (token, header, seen), rw who at e'')))

or_500-handled : (x : Option Done) {a : Done} → or_500 x ≡ handled a → x ≡ some a
or_500-handled none e = absurd (cc)
or_500-handled (some done) e = cc

-- Where a request to hold a seat, to release one or to check out comes to its handler, whatever Redis
-- does, its header carried a token that verified at the time, and what is done is what the handler
-- does for the user whom the token names.
pub acts_for_holder :
    (jwt : Jwt) (secret : Text) (cfg : RateLimitConfig) (c : Caller) (ask : Ask) (redis : Redis)
    (done : Done)
    → (route jwt secret cfg c ask redis).0 ≡ handled done
    → (claims : AccessTokenClaims) × Holds jwt secret c claims
      × (act c.x_request_id ask claims.sub ≡ some done)
unfolding route
acts_for_holder jwt secret cfg c ask redis done e =
    let (claims, holds, ran) =
      behind_guards-Holds jwt secret cfg c redis
        (λ user. or_500 (act c.x_request_id ask user.user_id)) e in
    (claims, holds, or_500-handled _ ran)
