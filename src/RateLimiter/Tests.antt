-- ===== src/RateLimiter/Tests.antt =====
-- Runs of the rate limiter, and its theorems at concrete inputs.
use taunggyi_city_church.Common.{
  ℕ, ◌*◌, ◌≤◌, ◌≡◌, refl, Bool, true, false, none, some, List, [], ◌∷◌, String, arith, count,
}
use taunggyi_city_church.Common.Exec.{redis_error, ok, raised}
use taunggyi_city_church.Cache.Api.{CacheApi}
use taunggyi_city_church.Cache.Memory.{empty, memory, memory-IsCache}
use taunggyi_city_church.RateLimiter.{
  RateLimitConfig, RateLimitResult, RateLimiter, WindowData, Limiter, sliding_window, details_of,
  check_rate_limit, get_rate_limit_info, reset_rate_limit, get_key, valid_requests,
  get_current_requests, add_request, sliding_window_check, retry_after,
}
use taunggyi_city_church.RateLimiter.Cover.{in_window}
use taunggyi_city_church.RateLimiter.Windows.{Check, allowed_times, allowed_in_window}
use taunggyi_city_church.RateLimiter.Balance.{Does, verdict, failed, check_always_counts}
use taunggyi_city_church.RateLimiter.Info.{info_after_check}

-- two requests in ten seconds
abbrev config : RateLimitConfig
config = record { strategy = sliding_window; max_requests = 2; window_seconds = 10 }

abbrev fresh : {S : Type 0} → S → RateLimiter S
fresh c = record {
  prefix = "rate_limit";
  metrics = record { checks = 0; allowed = 0; denied = 0; errors = 0 };
  cache = c;
}

abbrev login_at : ℕ → Check
login_at seconds = record { now = seconds * 1000000; identifier = "ko"; action = "login" }

abbrev logins : List Check
logins = login_at 1 ∷ login_at 2 ∷ login_at 3 ∷ login_at 10 ∷ login_at 12 ∷ []

abbrev key : String
key = "rate_limit:login:ko"

-- The third and the fourth are refused, and the fifth passes, which is a window after the second.
logins_allowed : count (λ t. true) (allowed_times memory config key logins (fresh empty) []) ≡ 3
unfolding allowed_times check_rate_limit sliding_window_check get_current_requests add_request
    valid_requests get_key
logins_allowed = refl

allowed_in_window_example :
    count (in_window 10 12000000) (allowed_times memory config key logins (fresh empty) []) ≤ 2
allowed_in_window_example =
    allowed_in_window memory (λ s. Unit) (λ t s k. s t k) config key 0 logins (fresh empty)
      memory-IsCache (omega arith) tt
      (omega arith, (omega arith, (omega arith, (omega arith, (omega arith, tt))))) 12000000

-- a cache that is down
abbrev down : CacheApi WindowData
down = record {
  State = Unit;
  get = λ now k s. (raised redis_error, s);
  set = λ now k v ttl s. (raised redis_error, s);
  delete = λ now k s. (raised redis_error, s);
}

check_always_counts_example :
    Does down
      (verdict down config 5 (get_key "rate_limit" "ko" "login") tt)
      (record { checks = 1; allowed = 0; denied = 0; errors = 0 })
      (check_rate_limit down 5 "ko" "login" config (fresh tt))
check_always_counts_example = check_always_counts down 5 "ko" "login" config (fresh tt)

down_fails : verdict down config 5 "k" tt ≡ failed
down_fails = refl

fails_open :
    (check_rate_limit down 5 "ko" "login" config (fresh tt)).0
    ≡ ok (record { allowed = true; details = none })
unfolding check_rate_limit sliding_window_check get_current_requests
fails_open = refl

retry_after_denied :
    retry_after 5000000 (record { allowed = false; details = some (details_of config 4000000 2) })
    ≡ 9
unfolding retry_after
retry_after_denied = refl

info_after_check_example :
    (result : RateLimitResult) × (s1 s2 : Limiter memory) × (b : Bool) × (check_rate_limit memory
        5000000 "ko" "login" config
        (fresh empty)
      ≡ (ok result, s1))
    × ((get_rate_limit_info memory 5000000 "ko" "login" config s1).0 ≡ ok result.details)
    × (reset_rate_limit memory 5000000 "ko" "login" s1 ≡ (ok b, s2))
    × ((get_rate_limit_info memory 5000000 "ko" "login" config s2).0
        ≡ ok (some (details_of config 5000000 0)))
info_after_check_example =
    info_after_check memory (λ s. Unit) (λ t s k. s t k) memory-IsCache 5000000 "ko" "login" config
      (fresh empty) tt (omega arith)
