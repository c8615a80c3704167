-- ===== src/Auth/Guard.antt =====
-- apps/seat-reservation/src/common/jwt-auth.guard.ts (the payment service's guard is the same) and
-- `JwtService` of apps/auth/src/auth/jwt.service.ts. The package `jsonwebtoken` is an interface: its
-- two functions, and what its documentation says of them. The options name HS256, and times are
-- seconds.
pub mod Access
pub mod Stale
use technical_assignment.Auth.Db.{UserRow}
use technical_assignment.Contracts.{TraceId}
use technical_assignment.Auth.Controller.{sign_access_token, AccessTokenClaims}
use technical_assignment.Common.{
  ℕ, Option, Text, ◌∷◌, [], ◌≡◌, some, if◌then◌else◌, none, ltb, starts_with, ◌+◌, trim, slice,
}

pub record Jwt : Type 0 where
  pub sign : (secret : Text) (claims : AccessTokenClaims) (iat ttl : ℕ) → Text
  pub verify : (secret : Text) (now : ℕ) → Text → Option AccessTokenClaims
  -- A token that was signed with the secret is verified until it expires.
  pub verify-sign :
      (secret : Text) (claims : AccessTokenClaims) (iat ttl now : ℕ)
      → verify secret now (sign secret claims iat ttl)
        ≡ (if ltb now (iat + ttl) then some claims else none)
  -- A token is three parts in base64url, joined by dots: no white space is in it.
  pub trim-sign :
      (secret : Text) (claims : AccessTokenClaims) (iat ttl : ℕ)
      → trim (sign secret claims iat ttl) ≡ sign secret claims iat ttl

-- What the guard writes to `req.user`; no trace is the empty text.
pub record AuthenticatedUser : Type 0 where
  pub user_id : ℕ
  pub email : ℕ
  pub token_version : ℕ
  pub trace_id : Option TraceId

pub data Guarded : Type 0 where
  authenticated : AuthenticatedUser → Guarded
  missing_token_401 invalid_token_401 : Guarded

-- 'Bearer '
abbrev pub bearer : Text
bearer = 66 ∷ 101 ∷ 97 ∷ 114 ∷ 101 ∷ 114 ∷ 32 ∷ []

-- jwtService.signAccessToken, called with the fields of a user
unfoldable pub sign_token : Jwt → Text → ℕ → ℕ → UserRow → Text
unfolding sign_access_token
sign_token jwt secret ttl now u = jwt.sign secret (sign_access_token u) now ttl

abbrev pub user_of : Option TraceId → AccessTokenClaims → AuthenticatedUser
user_of trace claims = record {
  user_id = claims.sub;
  email = claims.email;
  token_version = claims.tv;
  trace_id = trace;
}

verified : Option TraceId → Option AccessTokenClaims → Guarded
verified trace none = invalid_token_401
verified trace (some claims) = authenticated (user_of trace claims)

-- canActivate, with the headers `authorization` and `x-request-id`.
unfoldable pub can_activate : Jwt → Text → ℕ → Option Text → Option TraceId → Guarded
unfolding verified
can_activate jwt secret now none trace = missing_token_401
can_activate jwt secret now (some header) trace =
    if starts_with bearer header
    then verified trace (jwt.verify secret now (trim (slice 7 header)))
    else missing_token_401
