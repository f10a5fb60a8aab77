-- ===== src/RateLimiter/Reads.antt =====
-- What a check of apps/core/jwt/rate_limiter.py answers and stores while the cache is up.
use taunggyi_city_church.Common.{
  ℕ, ◌+◌, ◌-◌, ◌*◌, ◌≤◌, ◌<◌, ◌≡◌, refl, ◌∙◌, Bool, true, false, Option, some, [], ◌∷◌, ◌++◌,
  String, arith, str_eq, ltb, length, if◌then◌else◌, ap,
}
use taunggyi_city_church.Common.Exec.{Outcome, ok}
use taunggyi_city_church.Cache.Breaker.{ticks}
use taunggyi_city_church.Cache.Api.{CacheApi, IsCache, stored}
use taunggyi_city_church.RateLimiter.{
  RateLimitConfig, RateLimitResult, WindowData, Limiter, RateLimitStrategy, sliding_window,
  fixed_window, get_key, details_of, window_start_of, valid_requests, requests_of,
  get_current_requests, add_request, sliding_window_check, check_rate_limit, decide, checked,
}

-- what a check stores: the requests that count, and the new one
abbrev pub added : ℕ → ℕ → Option WindowData → WindowData
added now window_seconds before = record {
  requests = valid_requests (now - window_seconds * ticks) (requests_of before ++ now ∷ []);
}

-- the number of requests that a check at `now` finds
abbrev pub current_of : RateLimitConfig → ℕ → Option WindowData → ℕ
current_of config now before =
    length (valid_requests (window_start_of config now) (requests_of before))

module _ (cache : CacheApi WindowData) where
  -- every strategy is the sliding window
  pub checked_lem :
      (strategy : RateLimitStrategy) (now : ℕ) (identifier action : String)
      (config : RateLimitConfig) (s : Limiter cache)
      → checked cache strategy now identifier action config s
        ≡ sliding_window_check cache now identifier action config s
  checked_lem sliding_window now identifier action config s = refl
  checked_lem fixed_window now identifier action config s = refl

module _ (cache : CacheApi WindowData) (Up : CacheApi.State cache → Type 0)
    (view : ℕ → CacheApi.State cache → String → Option WindowData)
    (is_cache : IsCache cache Up view) where
  pub get_current_requests_lem :
      (now : ℕ) (key : String) (window_start : ℕ) (s : Limiter cache)
      → Up s.cache
      → get_current_requests cache now key window_start s ≡ (
        ok (length (valid_requests window_start (requests_of (view now s.cache key)))),
        record s { cache = (cache.get now key s.cache).1 },
      )
  unfolding get_current_requests
  get_current_requests_lem now key window_start s up = rw (is_cache.get_reads now key s.cache up)

  -- the cache after `add_request`
  abbrev written : ℕ → String → ℕ → CacheApi.State cache → CacheApi.State cache
  written now key window_seconds c =
      (cache.set now key (added now window_seconds (view now c key)) window_seconds
        (cache.get now key c).1).1

  add_request_lem :
      (now : ℕ) (key : String) (window_seconds : ℕ) (s : Limiter cache)
      → Up s.cache
      → 0 < window_seconds
      → add_request cache now key window_seconds s
        ≡ (ok tt, record s { cache = written now key window_seconds s.cache })
  unfolding add_request
  add_request_lem now key window_seconds s up positive =
      let v = added now window_seconds (view now s.cache key) in
      let up1 = is_cache.get_up now key s.cache up in
      let done =
        is_cache.set_up now window_seconds key v (cache.get now key s.cache).1 up1 positive in
      rw (is_cache.get_reads now key s.cache up, done.1)

  -- What a check of a key leaves: the cache is up, and only the key's requests may have changed.
  pub record Checked (config : RateLimitConfig) (now : ℕ) (key : String) (s s' : Limiter cache)
      (result : RateLimitResult) : Type 0 where
    pub up : Up s'.cache
    pub prefix : s'.prefix ≡ s.prefix
    pub allowed :
        result.allowed ≡ ltb (current_of config now (view now s.cache key)) config.max_requests
    pub details :
        result.details
        ≡ some (
            details_of config now
              (current_of config now (view now s.cache key) + (if result.allowed then 1 else 0)))
    pub reads :
        (t : ℕ) (j : String)
        → now ≤ t
        → view t s'.cache j ≡ (
            if result.allowed
            then (if str_eq key j
                then stored now config.window_seconds
                    (added now config.window_seconds (view now s.cache key))
                    t
                else view t s.cache j)
            else view t s.cache j)

  abbrev Does :
      RateLimitConfig
      → ℕ
      → String
      → Limiter cache
      → Outcome RateLimitResult × Limiter cache
      → Type 0
  Does config now key s done =
      (result : RateLimitResult) × (s' : Limiter cache) × (done ≡ (ok result, s'))
      × Checked config now key s s' result

  decide_lem :
      (config : RateLimitConfig) (now : ℕ) (key : String) (s s1 : Limiter cache) (b : Bool)
      → 0 < config.window_seconds
      → Up s1.cache
      → s1.prefix ≡ s.prefix
      → ((t : ℕ) (j : String) → now ≤ t → view t s1.cache j ≡ view t s.cache j)
      → b ≡ ltb (current_of config now (view now s.cache key)) config.max_requests
      → Does config now key s
          (decide cache config now key (current_of config now (view now s.cache key)) b s1)
  decide_lem config now key s s1 true positive up prefix same test =
      let c2 = written now key config.window_seconds s1.cache in
      let up1 = is_cache.get_up now key s1.cache up in
      let v = added now config.window_seconds (view now s1.cache key) in
      let before : view now s1.cache key ≡ view now s.cache key = same now key (omega arith) in
      (
        record {
          allowed = true;
          details = some (details_of config now (current_of config now (view now s.cache key) + 1));
        },
        record s1 {
          cache = c2;
          metrics = record (s1.metrics) { allowed = s1.metrics.allowed + 1 };
        },
        rw (add_request_lem now key config.window_seconds s1 up positive),
        record {
          up =
              (is_cache.set_up now config.window_seconds key v (cache.get now key s1.cache).1 up1
                positive).0;
          prefix = prefix;
          allowed = test;
          details = refl;
          reads = λ t j le.
              is_cache.set_writes now config.window_seconds t key j v (cache.get now key s1.cache).1
                up1 positive le
              ∙ ap
                  (λ (o : Option WindowData).
                    if str_eq key j then stored now config.window_seconds v t else o)
                  (is_cache.get_keeps now t key j s1.cache up le ∙ same t j le)
              ∙ ap
                  (λ (o : Option WindowData).
                    if str_eq key j
                    then stored now config.window_seconds (added now config.window_seconds o) t
                    else view t s.cache j)
                  before;
        },
      )
  decide_lem config now key s s1 false positive up prefix same test = (
    record {
      allowed = false;
      details = some (details_of config now (current_of config now (view now s.cache key)));
    },
    record s1 { metrics = record (s1.metrics) { denied = s1.metrics.denied + 1 } },
    refl,
    record {
      up = up;
      prefix = prefix;
      allowed = test;
      details = ap (λ (n : ℕ). some (details_of config now n)) (omega arith);
      reads = same;
    },
  )

  sliding_window_check_lem :
      (now : ℕ) (identifier action : String) (config : RateLimitConfig) (s : Limiter cache)
      → Up s.cache
      → 0 < config.window_seconds
      → Does config now
          (get_key s.prefix identifier action)
          s
          (sliding_window_check cache now identifier action config s)
  unfolding sliding_window_check
  sliding_window_check_lem now identifier action config s up positive =
      let key = get_key s.prefix identifier action in
      rw (get_current_requests_lem now key (window_start_of config now) s up) (
        decide_lem config now key s (record s { cache = (cache.get now key s.cache).1 })
          (ltb (current_of config now (view now s.cache key)) config.max_requests) positive
          (is_cache.get_up now key s.cache up) refl
          (λ t j le. is_cache.get_keeps now t key j s.cache up le) refl)

  pub check_rate_limit_lem :
      (now : ℕ) (identifier action : String) (config : RateLimitConfig) (s : Limiter cache)
      → Up s.cache
      → 0 < config.window_seconds
      → Does config now
          (get_key s.prefix identifier action)
          s
          (check_rate_limit cache now identifier action config s)
  unfolding check_rate_limit
  check_rate_limit_lem now identifier action config s up positive =
      let s0 : Limiter cache = record s {
        metrics = record (s.metrics) { checks = s.metrics.checks + 1 };
      } in
      let (result, s', e, h) =
        sliding_window_check_lem now identifier action config s0 up positive in
      (
        result,
        s',
        rw (checked_lem cache config.strategy now identifier action config s0, e),
        record {
          up = h.up;
          prefix = h.prefix;
          allowed = h.allowed;
          details = h.details;
          reads = h.reads;
        },
      )
