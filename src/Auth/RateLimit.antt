-- ===== src/Auth/RateLimit.antt =====
-- apps/auth/src/common/rate-limit.guard.ts: `RateLimitGuard.canActivate` from its transaction on,
-- over one sorted set of Redis. The guards of the other two services are the same.
pub mod Window
pub mod Guard
pub mod Keys
use technical_assignment.Common.{
  ℕ, Option, none, some, List, Bool, if◌then◌else◌, ◌++◌, select, ltb, ◌∷◌, count_where, leb, false,
  not, [], ◌+◌, ◌&&◌, ◌-◌, ◌/◌, true, Text,
}

pub record RateLimitConfig : Type 0 where
  pub name : Text
  pub window_ms : ℕ
  pub max : ℕ

-- A sorted set: the scores of its members, and the time at which it expires.
pub record Zset : Type 0 where
  pub scores : List ℕ
  pub expires_at : Option ℕ

-- A key whose time has come is gone.
abbrev pub live_scores : ℕ → Option ℕ → List ℕ → List ℕ
live_scores now none scores = scores
live_scores now (some t) scores = if leb t now then [] else scores

-- ZREMRANGEBYSCORE key 0 windowStart. Where `now` is less than the window, the bound is negative
-- and the range is empty.
abbrev pub zremrangebyscore : ℕ → ℕ → List ℕ → List ℕ
zremrangebyscore window_ms now scores = select (λ s. not (leb (s + window_ms) now)) scores

-- ZCOUNT key windowStart now
abbrev pub zcount : ℕ → ℕ → List ℕ → ℕ
zcount window_ms now scores = count_where (λ s. leb now (s + window_ms) && leb s now) scores

pub record Verdict : Type 0 where
  pub allowed : Bool
  pub remaining : ℕ
  pub retry_after : Option ℕ
  pub store : Zset

unfoldable pub verdict : RateLimitConfig → ℕ → Zset → Verdict
verdict cfg count z =
    if ltb cfg.max count
    then record {
      allowed = false;
      remaining = cfg.max - count;
      retry_after = some ((cfg.window_ms + 999) / 1000);
      store = z;
    }
    else record { allowed = true; remaining = cfg.max - count; retry_after = none; store = z }

-- The transaction of four commands, and the decision; `now` is `Date.now()`, and the member that
-- ZADD adds is new.
unfoldable pub can_activate : RateLimitConfig → ℕ → Zset → Verdict
unfolding verdict
can_activate cfg now z =
    let scores =
      zremrangebyscore cfg.window_ms now (live_scores now z.expires_at z.scores) ++ now ∷ [] in
    verdict cfg (zcount cfg.window_ms now scores)
      (record { scores = scores; expires_at = some (now + cfg.window_ms) })
