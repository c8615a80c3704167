-- ===== src/Auth/RateLimit/Guard.antt =====
-- apps/payment/src/common/rate-limit.guard.ts and apps/seat-reservation/src/common/rate-limit.guard.ts
-- (that of the auth service is the same but for its comments): the whole of
-- `RateLimitGuard.canActivate`, from the request to what is answered and what is left in Redis.
use technical_assignment.Auth.RateLimit.{RateLimitConfig, Zset, Verdict, can_activate, verdict}
use technical_assignment.Common.{
  ℕ, Text, Option, some, none, [], ◌∷◌, ◌++◌, ◌==◌, if◌then◌else◌, text_eq, trim,
}

-- What the guard reads of a request: `req.headers['x-forwarded-for']` and `req.ip`.
pub record HttpRequest : Type 0 where
  pub forwarded_for : Option Text
  pub ip : Option Text

-- s.split(',')[0]
unfoldable pub first_part : Text → Text
first_part [] = []
first_part (c ∷ s) = let rest = first_part s in if c == 44 then [] else c ∷ rest

-- 'unknown'
abbrev unknown : Text
unknown = 117 ∷ 110 ∷ 107 ∷ 110 ∷ 111 ∷ 119 ∷ 110 ∷ []

-- An empty header is a text, and `??` takes it.
unfoldable pub client_ip : HttpRequest → Text
client_ip r = elim r.forwarded_for [
  | some header ↦ trim (first_part header)
  | none ↦ elim r.ip [ some ip ↦ ip | none ↦ unknown ]
]

-- `rl:${cfg.name}:${ip}`
unfoldable pub key_of : RateLimitConfig → HttpRequest → Text
unfolding client_ip
key_of cfg r = 114 ∷ 108 ∷ 58 ∷ (cfg.name ++ 58 ∷ client_ip r)

-- The sorted set under each key; a key that is not there is the empty set.
abbrev pub Redis : Type 0
Redis = Text → Zset

abbrev pub set_key : Text → Zset → Redis → Redis
set_key k z redis key = if text_eq key k then z else redis key

-- multi.exec(): the four replies, no result or no third reply, or a rejection.
pub data Exec : Type 0 where
  runs no_reply rejects : Exec

pub record Headers : Type 0 where
  pub limit : ℕ
  pub remaining : ℕ

-- The request goes on, or is answered: 429 with its Retry-After, or the 500 of an exception.
pub data Guarded : Type 0 where
  passes : Option Headers → Guarded
  rate_limited_429 : Headers → (retry_after : ℕ) → Guarded
  internal_error_500 : Guarded

unfoldable pub answer_of : RateLimitConfig → Verdict → Guarded
answer_of cfg v = elim v.retry_after [
  | none ↦ passes (some (record { limit = cfg.max; remaining = v.remaining }))
  | some t ↦ rate_limited_429 (record { limit = cfg.max; remaining = v.remaining }) t
]

-- canActivate, with the metadata of the handler, `Date.now()` and what `exec` does. Where there is
-- no reply to ZCOUNT the count is 0.
unfoldable pub guard : Option RateLimitConfig → HttpRequest → ℕ → Exec → Redis → Guarded × Redis
unfolding answer_of key_of
guard none r now x redis = (passes none, redis)
guard (some cfg) r now runs redis =
    let v = can_activate cfg now (redis (key_of cfg r)) in
    (answer_of cfg v, set_key (key_of cfg r) v.store redis)
guard (some cfg) r now no_reply redis =
    (answer_of cfg (verdict cfg 0 (redis (key_of cfg r))), redis)
guard (some cfg) r now rejects redis = (internal_error_500, redis)
