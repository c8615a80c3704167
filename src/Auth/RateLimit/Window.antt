-- ===== src/Auth/RateLimit/Window.antt =====
-- What the guard counts, told from the times of the requests alone.
use technical_assignment.Common.{
  ◌≡◌, refl, inl, inr, ℕ, Bool, List, true, ◌<◌, ltb, none, ◌≤◌, count_where, ◌++◌, [], leb, ◌+◌,
  Bool-cases, some, ◌&&◌, select, arith, sym, count_where-append, not,
}
use technical_assignment.Auth.RateLimit.{
  can_activate, Zset, RateLimitConfig, ℕ, zremrangebyscore, List, Bool, ltb, ◌∷◌, live_scores, none,
  leb, count_where, some, select, not, zcount, verdict,
}

-- The store after the requests at these times, the latest first, allowed or not.
abbrev pub after_requests : RateLimitConfig → List ℕ → Zset
after_requests cfg [] = record { scores = []; expires_at = none }
after_requests cfg (t ∷ ts) = let z = after_requests cfg ts in (can_activate cfg t z).store

-- No request is later than `now`, nor than the one that stands before it.
abbrev pub LatestFirst : ℕ → List ℕ → Type 0
LatestFirst now [] = Unit
LatestFirst now (t ∷ ts) = (t ≤ now) × LatestFirst t ts

-- In the window that ends at `now`.
abbrev pub in_window : ℕ → ℕ → ℕ → Bool
in_window window_ms now s = ltb now (s + window_ms) && leb s now

none_after :
    (w now t : ℕ) (p : ℕ → Bool) (ts : List ℕ)
    → ((s : ℕ) → p s ≡ true → now < s + w)
    → t + w ≤ now
    → LatestFirst t ts
    → count_where p ts ≡ 0
none_after w now t p [] h old order = refl
none_after w now t p (s ∷ ts) h old order = elim (Bool-cases (p s)) [
  | inl e ↦ absurd (omega (arith, h s e, order.0))
  | inr e ↦ rw e (none_after w now s p ts h (omega (arith, order.0)) order.1)
]

count_where-select :
    (p q : ℕ → Bool) (xs : List ℕ)
    → ((s : ℕ) → p s ≡ true → q s ≡ true)
    → count_where p (select q xs) ≡ count_where p xs
count_where-select p q [] h = refl
count_where-select p q (x ∷ xs) h = ground (arith, h x, count_where-select p q xs h)

count_where-select-both :
    (p q r : ℕ → Bool) (xs : List ℕ)
    → ((s : ℕ) → (p s && q s) ≡ r s)
    → count_where p (select q xs) ≡ count_where r xs
count_where-select-both p q r [] h = refl
count_where-select-both p q r (x ∷ xs) h =
    ground (arith, sym (h x), count_where-select-both p q r xs h)

store-after_requests :
    (cfg : RateLimitConfig) (t : ℕ) (z : Zset)
    → (can_activate cfg t z).store ≡ record {
      scores = zremrangebyscore cfg.window_ms t (live_scores t z.expires_at z.scores) ++ t ∷ [];
      expires_at = some (t + cfg.window_ms);
    }
unfolding can_activate
store-after_requests cfg t z = ground arith

count-after_requests :
    (cfg : RateLimitConfig) (now : ℕ) (p : ℕ → Bool) (ts : List ℕ)
    → ((s : ℕ) → p s ≡ true → now < s + cfg.window_ms)
    → LatestFirst now ts
    → count_where p
        (live_scores now (after_requests cfg ts).expires_at (after_requests cfg ts).scores)
      ≡ count_where p ts
count-after_requests cfg now p [] h order = refl
count-after_requests cfg now p (t ∷ ts) h order =
    rw (store-after_requests cfg t (after_requests cfg ts))
      (elim (Bool-cases (leb (t + cfg.window_ms) now)) [
        | inl e ↦ rw e (
            sym
              (none_after cfg.window_ms now t p (t ∷ ts) h (ground arith) (ground arith, order.1)))
        | inr e ↦
            rw
              (
                e,
                count_where-append p
                    (zremrangebyscore cfg.window_ms t (
                      live_scores t (after_requests cfg ts).expires_at
                        (after_requests cfg ts).scores))
                    (t ∷ []),
                count_where-select p (λ s. not (leb (s + cfg.window_ms) t))
                    (live_scores t (after_requests cfg ts).expires_at
                      (after_requests cfg ts).scores)
                    (λ s g. ground (arith, h s g, order.0)),
                count-after_requests cfg t p ts (λ s g. omega (arith, h s g, order.0)) order.1,
              )
              (ground arith)
      ])

zcount-after_requests :
    (cfg : RateLimitConfig) (now : ℕ) (ts : List ℕ)
    → 0 < cfg.window_ms
    → LatestFirst now ts
    → let z = after_requests cfg ts in
      zcount cfg.window_ms now
        (zremrangebyscore cfg.window_ms now (live_scores now z.expires_at z.scores) ++ now ∷ [])
      ≡ count_where (in_window cfg.window_ms now) (now ∷ ts)
zcount-after_requests cfg now ts pos order =
    let z = after_requests cfg ts in
    let kept = live_scores now z.expires_at z.scores in
    rw
      (
        count_where-append (λ s. leb now (s + cfg.window_ms) && leb s now)
            (zremrangebyscore cfg.window_ms now kept) (now ∷ []),
        count_where-select-both (λ s. leb now (s + cfg.window_ms) && leb s now)
            (λ s. not (leb (s + cfg.window_ms) now)) (in_window cfg.window_ms now) kept
            (λ s. ground arith),
        count-after_requests cfg now (in_window cfg.window_ms now) ts (λ s g. ground arith) order,
      )
      (ground arith)

-- From an empty store, for requests that come in order of time and a positive window, the verdict
-- on a request is that of the number of the requests in the window that ends with it, itself
-- included and refused ones counted.
pub verdict_of_window :
    (cfg : RateLimitConfig) (now : ℕ) (ts : List ℕ)
    → 0 < cfg.window_ms
    → LatestFirst now ts
    → let v = can_activate cfg now (after_requests cfg ts) in
      v ≡ verdict cfg (count_where (in_window cfg.window_ms now) (now ∷ ts)) v.store
unfolding can_activate
verdict_of_window cfg now ts pos order =
    rw (zcount-after_requests cfg now ts pos order)
      (elim (Bool-cases (ltb cfg.max (count_where (in_window cfg.window_ms now) (now ∷ ts)))) [
        | inl many ↦ unfold verdict in ground (arith, many)
        | inr few ↦ unfold verdict in ground (arith, few)
      ])
