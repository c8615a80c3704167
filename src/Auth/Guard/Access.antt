-- ===== src/Auth/Guard/Access.antt =====
-- Whom the guard lets through.
use technical_assignment.Auth.Db.{UserRow}
use technical_assignment.Contracts.{TraceId}
use technical_assignment.Auth.Controller.{sign_access_token, AccessTokenClaims}
use technical_assignment.Auth.Guard.{
  can_activate, Text, Jwt, slice, sign_token, sign_access_token, Option, bearer, verified, TraceId,
  AuthenticatedUser, UserRow, ◌∷◌, authenticated, some, ltb, trim, invalid_token_401, user_of,
}
use technical_assignment.Common.{
  ℕ, starts_with, slice, Text, ◌++◌, Option, ◌≡◌, true, some, ◌↔◌, if◌then◌else◌, [], ltb, ◌+◌,
  refl, trim, arith, Bool-cases, none, ◌==◌, inl, ==_iff, inr,
}

-- A text with a prefix is the prefix and a rest.
starts_with_rest : (p s : Text) → starts_with p s ≡ true → (rest : Text) × (s ≡ p ++ rest)
unfolding starts_with
starts_with_rest [] s h = (s, refl)
starts_with_rest (c ∷ p) [] h = absurd (ground (arith, h))
starts_with_rest (c ∷ p) (d ∷ s) h = elim (Bool-cases (c == d)) [
  | inl same ↦
      let (rest, e) = starts_with_rest p s (ground (arith, h, same)) in
      (rest, rw (e, (==_iff c d).0 same) refl)
  | inr other ↦ absurd (ground (arith, h, other))
]

verified-authenticated :
    (trace : Option TraceId) (c : Option AccessTokenClaims) (user : AuthenticatedUser)
    → verified trace c ≡ authenticated user
    → (claims : AccessTokenClaims) × (c ≡ some claims) × (user ≡ user_of trace claims)
unfolding verified
verified-authenticated trace none user e = absurd (cc)
verified-authenticated trace (some claims) user e = (claims, refl, cc)

-- A request is let through as a user exactly when its header is the scheme with a text that, less the
-- white space around it, is verified as a token with that user's claims.
pub authenticated_iff :
    (jwt : Jwt) (secret : Text) (now : ℕ) (header : Option Text) (trace : Option TraceId)
    (user : AuthenticatedUser)
    → (can_activate jwt secret now header trace ≡ authenticated user) ↔ (
        (rest : Text) × (claims : AccessTokenClaims) × (header ≡ some (bearer ++ rest))
        × (jwt.verify secret now (trim rest) ≡ some claims)
        × (user ≡ user_of trace claims))
unfolding can_activate verified starts_with slice
authenticated_iff jwt secret now header trace user = (let_through header, admits)
  where
    let_through :
        (h : Option Text)
        → can_activate jwt secret now h trace ≡ authenticated user
        → (rest : Text) × (claims : AccessTokenClaims) × (h ≡ some (bearer ++ rest))
          × (jwt.verify secret now (trim rest) ≡ some claims)
          × (user ≡ user_of trace claims)
    let_through none e = absurd (cc)
    let_through (some h) e = elim (Bool-cases (starts_with bearer h)) [
      | inl has ↦ opened (starts_with_rest bearer h has) e
      | inr lacks ↦ absurd (ground (arith, e, lacks))
    ]
      where
        opened :
            (rest : Text) × (h ≡ bearer ++ rest)
            → can_activate jwt secret now (some h) trace ≡ authenticated user
            → (rest : Text) × (claims : AccessTokenClaims) × (some h ≡ some (bearer ++ rest))
              × (jwt.verify secret now (trim rest) ≡ some claims)
              × (user ≡ user_of trace claims)
        opened (rest, split) e =
            let (claims, seen, who) =
              verified-authenticated trace (jwt.verify secret now (trim rest)) user
                (rw split at e) in
            (rest, claims, rw split refl, seen, who)

    admits :
        (rest : Text) × (claims : AccessTokenClaims) × (header ≡ some (bearer ++ rest))
          × (jwt.verify secret now (trim rest) ≡ some claims)
          × (user ≡ user_of trace claims)
        → can_activate jwt secret now header trace ≡ authenticated user
    admits (rest, claims, shape, seen, who) = rw (shape, seen, who) refl

-- The token that the authentication service signs for a user is let through by the other services as
-- that user, with the version that it was signed with, as long as its time to live is not over, and
-- is refused after that.
pub signed_token_accepted :
    (jwt : Jwt) (secret : Text) (ttl iat now : ℕ) (u : UserRow) (trace : Option TraceId)
    → can_activate jwt secret now (some (bearer ++ sign_token jwt secret ttl iat u)) trace ≡ (
        if ltb now (iat + ttl)
        then authenticated (record {
          user_id = u.id;
          email = u.email;
          token_version = u.token_version;
          trace_id = trace;
        })
        else invalid_token_401)
unfolding can_activate sign_token sign_access_token starts_with slice verified
signed_token_accepted jwt secret ttl iat now u trace =
    let c = sign_access_token u in
    rw (jwt.trim-sign secret c iat ttl, jwt.verify-sign secret c iat ttl now)
      (elim (Bool-cases (ltb now (iat + ttl))) [
        | inl young ↦ rw young refl
        | inr old ↦ rw old refl
      ])
