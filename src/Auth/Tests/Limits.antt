-- ===== src/Auth/Tests/Limits.antt =====
-- Two clients of one handler, one of them behind a proxy.
use technical_assignment.Auth.RateLimit.{RateLimitConfig}
use technical_assignment.Auth.RateLimit.Guard.{
  HttpRequest, guard, rate_limited_429, runs, client_ip, key_of, first_part,
}
use technical_assignment.Auth.RateLimit.Keys.{Hit, after_hits, limited_by_own_key}
use technical_assignment.Common.{
  List, some, none, [], ◌∷◌, ◌≡◌, refl, arith, trim, trim_start, trim_end, is_space, text_eq,
}

-- 'login', at most two requests in a minute
abbrev limit : RateLimitConfig
limit = record { name = 108 ∷ 111 ∷ 103 ∷ 105 ∷ 110 ∷ []; window_ms = 60000; max = 2 }

-- '1.1, 9' and no header, from the address '2'
abbrev proxied : HttpRequest
proxied = record { forwarded_for = some (49 ∷ 46 ∷ 49 ∷ 44 ∷ 32 ∷ 57 ∷ []); ip = some (57 ∷ []) }

abbrev direct : HttpRequest
direct = record { forwarded_for = none; ip = some (50 ∷ []) }

abbrev hits : List Hit
hits =
    record { config = limit; request = direct; at = 2500 }
    ∷ record { config = limit; request = proxied; at = 2000 }
    ∷ record { config = limit; request = direct; at = 1500 }
    ∷ record { config = limit; request = proxied; at = 1000 }
    ∷ []

first_of_header : client_ip proxied ≡ 49 ∷ 46 ∷ 49 ∷ []
unfolding client_ip first_part trim trim_start trim_end is_space
first_of_header = refl

limited_by_own_key_example :
    (guard (some limit) proxied 3000 runs (after_hits hits)).0
    ≡ rate_limited_429 (record { limit = 2; remaining = 0 }) 60
unfolding key_of client_ip first_part trim trim_start trim_end is_space text_eq
limited_by_own_key_example =
    limited_by_own_key limit proxied 3000 hits (omega arith)
      ((λ e. refl), ((λ e. refl), ((λ e. refl), ((λ e. refl), tt))))
      (omega arith, (omega arith, tt))
