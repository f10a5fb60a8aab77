-- ===== src/RateLimiter.antt =====
-- apps/core/jwt/rate_limiter.py: `RateLimiter`, over the cache. Times are microseconds; the clock is
-- read once in a call. The log and the texts of reports are not modelled.
pub mod Reads
pub mod Cover
pub mod Windows
pub mod Balance
pub mod Info
mod Tests
use taunggyi_city_church.Common.{
  ℕ, ◌+◌, ◌-◌, ◌*◌, ◌/◌, Bool, true, false, Option, none, some, List, [], ◌∷◌, ◌++◌, String, ltb,
  leb, length, filter, if◌then◌else◌, max,
}
use taunggyi_city_church.Common.Exec.{Outcome, Exec, pure, raise, catch, ◌>>=◌, ◌>>◌, modify}
use taunggyi_city_church.Common.Text.{◌:::◌}
use taunggyi_city_church.Cache.Breaker.{ticks}
use taunggyi_city_church.Cache.Api.{CacheApi}

pub data RateLimitStrategy : Type 0 where
  sliding_window fixed_window : RateLimitStrategy

-- `block_duration` is never read
pub record RateLimitConfig : Type 0 where
  pub strategy : RateLimitStrategy
  pub max_requests : ℕ
  pub window_seconds : ℕ

pub record Details : Type 0 where
  pub limit : ℕ
  pub remaining : ℕ
  pub reset_time : ℕ
  pub current_requests : ℕ

-- The details are those of a report, or none for the text of an error
pub record RateLimitResult : Type 0 where
  pub allowed : Bool
  pub details : Option Details

-- the property `retry_after`, with the default of `reset_time`
unfoldable pub retry_after : ℕ → RateLimitResult → ℕ
retry_after now r =
    if r.allowed then 0 else (elim r.details [ none ↦ 0 | some d ↦ d.reset_time ]) - now / ticks

-- the value that is cached: `{"requests": [...]}`
pub record WindowData : Type 0 where
  pub requests : List ℕ

pub record LimiterMetrics : Type 0 where
  pub checks : ℕ
  pub allowed : ℕ
  pub denied : ℕ
  pub errors : ℕ

pub record RateLimiter (S : Type 0) : Type 0 where
  pub prefix : String
  pub metrics : LimiterMetrics
  pub cache : S

-- `_get_key`
unfoldable pub get_key : String → String → String → String
get_key prefix identifier action = prefix ::: action ::: identifier

-- `int(now + config.window_seconds)`
abbrev pub reset_after : RateLimitConfig → ℕ → ℕ
reset_after config now = (now + config.window_seconds * ticks) / ticks

-- `now - config.window_seconds`; the clock counts from an epoch, so stopping at 0 drops no request
abbrev pub window_start_of : RateLimitConfig → ℕ → ℕ
window_start_of config now = now - config.window_seconds * ticks

abbrev pub details_of : RateLimitConfig → ℕ → ℕ → Details
details_of config now current = record {
  limit = config.max_requests;
  remaining = config.max_requests - current;
  reset_time = reset_after config now;
  current_requests = current;
}

-- `[ts for ts in requests if ts >= window_start]`
unfoldable pub valid_requests : ℕ → List ℕ → List ℕ
valid_requests window_start requests = filter (λ ts. leb window_start ts) requests

-- `window_data or {"requests": []}`, and its requests
abbrev pub requests_of : Option WindowData → List ℕ
requests_of none = []
requests_of (some data_now) = data_now.requests

module _ (cache : CacheApi WindowData) where
  abbrev pub Limiter : Type 0
  Limiter = RateLimiter (CacheApi.State cache)

  abbrev pub on_cache : {A : Type 0} → Exec (CacheApi.State cache) A → Exec Limiter A
  on_cache m s = let (r, c) = m s.cache in (r, record s { cache = c })

  -- `self._metrics[…] += 1`
  abbrev pub count_metrics : (LimiterMetrics → LimiterMetrics) → Exec Limiter Unit
  count_metrics f = modify (λ s. record s { metrics = f s.metrics })

  unfoldable pub get_current_requests : ℕ → String → ℕ → Exec Limiter ℕ
  get_current_requests now key window_start = do
    window_data ← on_cache (cache.get now key)
    pure (length (valid_requests window_start (requests_of window_data)))

  -- The answer of `set` is ignored.
  unfoldable pub add_request : ℕ → String → ℕ → Exec Limiter Unit
  add_request timestamp key window_seconds = do
    window_data ← on_cache (cache.get timestamp key)
    on_cache (
        cache.set timestamp key
          (record {
            requests =
                valid_requests (timestamp - window_seconds * ticks)
                  (requests_of window_data ++ timestamp ∷ []);
          })
          window_seconds)
    pure tt

  -- the branches on `current_requests < config.max_requests`
  abbrev pub decide : RateLimitConfig → ℕ → String → ℕ → Bool → Exec Limiter RateLimitResult
  decide config now key current true = do
    add_request now key config.window_seconds
    count_metrics (λ m. record m { allowed = m.allowed + 1 })
    pure (record { allowed = true; details = some (details_of config now (current + 1)) })
  decide config now key current false = do
    count_metrics (λ m. record m { denied = m.denied + 1 })
    pure (record { allowed = false; details = some (details_of config now current) })

  -- `_sliding_window_check`
  unfoldable pub sliding_window_check :
      ℕ → String → String → RateLimitConfig → Exec Limiter RateLimitResult
  sliding_window_check now identifier action config s =
      let key = get_key s.prefix identifier action in
      (do
        current ← get_current_requests now key (window_start_of config now)
        decide config now key current (ltb current config.max_requests))
        s

  abbrev fail_open : Exec Limiter RateLimitResult
  fail_open = do
    count_metrics (λ m. record m { errors = m.errors + 1 })
    pure (record { allowed = true; details = none })

  -- Every strategy is the sliding window; an error lets the request pass.
  abbrev pub checked :
      RateLimitStrategy → ℕ → String → String → RateLimitConfig → Exec Limiter RateLimitResult
  checked sliding_window = sliding_window_check
  checked fixed_window = sliding_window_check

  unfoldable pub check_rate_limit :
      ℕ → String → String → RateLimitConfig → Exec Limiter RateLimitResult
  check_rate_limit now identifier action config = do
    count_metrics (λ m. record m { checks = m.checks + 1 })
    catch (checked config.strategy now identifier action config) (λ e. fail_open)

  -- none stands for the text of an error
  unfoldable pub get_rate_limit_info :
      ℕ → String → String → RateLimitConfig → Exec Limiter (Option Details)
  get_rate_limit_info now identifier action config s =
      let key = get_key s.prefix identifier action in
      catch
        (do
          current ← get_current_requests now key (window_start_of config now)
          pure (some (details_of config now current)))
        (λ e. pure none) s

  unfoldable pub reset_rate_limit : ℕ → String → String → Exec Limiter Bool
  reset_rate_limit now identifier action s =
      let key = get_key s.prefix identifier action in
      catch (on_cache (cache.delete now key)) (λ e. pure false) s
