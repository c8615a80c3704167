-- ===== src/Auth/RateLimit/Keys.antt =====
-- Which requests count against a request.
use technical_assignment.Auth.RateLimit.Window.{
  after_requests, LatestFirst, in_window, verdict_of_window,
}
use technical_assignment.Auth.RateLimit.{
  RateLimitConfig, ◌∷◌, verdict, none, some, true, count_where, leb, ltb, false,
}
use technical_assignment.Auth.RateLimit.Guard.{
  guard, HttpRequest, answer_of, Redis, key_of, runs, passes, rate_limited_429,
}
use technical_assignment.Common.{
  ℕ, List, Text, All, text_eq, ◌≡◌, none, if◌then◌else◌, ◌<◌, [], some, true, Bool-cases,
  count_where, inl, text_eq-true, text_eq_refl, leb, inr, arith, ◌-◌, ◌+◌, ◌/◌, ltb, false, refl,
}

pub record Hit : Type 0 where
  pub config : RateLimitConfig
  pub request : HttpRequest
  pub at : ℕ

-- Redis after these requests, the latest first, to any handlers and from any clients.
unfoldable pub after_hits : List Hit → Redis
after_hits [] = λ key. record { scores = []; expires_at = none }
after_hits (h ∷ hs) = (guard (some h.config) h.request h.at runs (after_hits hs)).1

-- The times of those whose key is this one.
abbrev pub own : Text → List Hit → List ℕ
own k [] = []
own k (h ∷ hs) = if text_eq (key_of h.config h.request) k then h.at ∷ own k hs else own k hs

-- A key is used with one configuration only.
abbrev pub IsUsedWith : RateLimitConfig → Text → Hit → Type 0
IsUsedWith cfg k h = text_eq (key_of h.config h.request) k ≡ true → h.config ≡ cfg

after_hits-own :
    (cfg : RateLimitConfig) (k : Text) (hs : List Hit)
    → All (IsUsedWith cfg k) hs
    → after_hits hs k ≡ after_requests cfg (own k hs)
unfolding after_hits guard
after_hits-own cfg k [] one = refl
after_hits-own cfg k (h ∷ hs) one =
    let key = key_of h.config h.request in
    let rest = after_hits-own cfg k hs one.1 in
    elim (Bool-cases (text_eq key k)) [
      | inl hit ↦
          let same : key ≡ k = text_eq-true key k hit in
          rw (hit, same, text_eq_refl k, one.0 hit, rest) refl
      | inr other ↦ elim (Bool-cases (text_eq k key)) [
        | inl hit ↦
            let same : k ≡ key = text_eq-true k key hit in
            absurd (ground (arith, other, text_eq_refl k, same))
        | inr apart ↦ rw (other, apart) rest
      ]
    ]

-- Where every earlier request with the key of this one came with the same configuration, in order of
-- time, and the window is positive, the guard of a service answers a request by the number of the
-- requests with its own key in the window that ends with it, itself included and refused ones
-- counted, whatever other requests there were: up to the limit it goes on, with the rest of the
-- limit in its header, and beyond it is answered with 429 and the window in seconds, rounded up.
pub limited_by_own_key :
    (cfg : RateLimitConfig) (r : HttpRequest) (now : ℕ) (hs : List Hit)
    → 0 < cfg.window_ms
    → All (IsUsedWith cfg (key_of cfg r)) hs
    → LatestFirst now (own (key_of cfg r) hs)
    → let n = count_where (in_window cfg.window_ms now) (now ∷ own (key_of cfg r) hs) in
      (guard (some cfg) r now runs (after_hits hs)).0 ≡ (
        if leb n cfg.max
        then passes (some (record { limit = cfg.max; remaining = cfg.max - n }))
        else rate_limited_429
            (record { limit = cfg.max; remaining = 0 })
            ((cfg.window_ms + 999) / 1000))
unfolding guard answer_of verdict
limited_by_own_key cfg r now hs pos one order =
    let n = count_where (in_window cfg.window_ms now) (now ∷ own (key_of cfg r) hs) in
    rw
      (
        after_hits-own cfg (key_of cfg r) hs one,
        verdict_of_window cfg now (own (key_of cfg r) hs) pos order,
      )
      (elim (Bool-cases (ltb cfg.max n)) [
        | inl many ↦
            let more : leb n cfg.max ≡ false = ground (arith, many) in
            let rest : cfg.max - n ≡ 0 = ground (arith, many) in rw (many, more, rest) refl
        | inr few ↦ let within : leb n cfg.max ≡ true = ground (arith, few) in rw (few, within) refl
      ])
