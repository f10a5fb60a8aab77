-- ===== src/RateLimiter/Info.antt =====
-- `get_rate_limit_info` and `reset_rate_limit` of apps/core/jwt/rate_limiter.py, after a check.
use taunggyi_city_church.Common.{
  ℕ, ◌+◌, ◌<◌, ◌≡◌, refl, sym, ◌∙◌, ap, Bool, Option, none, some, String, arith, str_eq_refl,
  if◌then◌else◌, Bool-cases, inl, inr,
}
use taunggyi_city_church.Common.Exec.{ok}
use taunggyi_city_church.Cache.Api.{CacheApi, IsCache, stored}
use taunggyi_city_church.RateLimiter.{
  RateLimitConfig, RateLimitResult, WindowData, Limiter, get_key, details_of, window_start_of,
  valid_requests, check_rate_limit, get_rate_limit_info, reset_rate_limit,
}
use taunggyi_city_church.RateLimiter.Reads.{
  Checked, added, current_of, get_current_requests_lem, check_rate_limit_lem,
}
use taunggyi_city_church.RateLimiter.Cover.{count-added, current_lem}

module _ (cache : CacheApi WindowData) (Up : CacheApi.State cache → Type 0)
    (view : ℕ → CacheApi.State cache → String → Option WindowData)
    (is_cache : IsCache cache Up view) where
  info_lem :
      (now : ℕ) (identifier action : String) (config : RateLimitConfig) (s : Limiter cache)
      → Up s.cache
      → (get_rate_limit_info cache now identifier action config s).0
        ≡ ok (
            some (
              details_of config now
                (current_of config now (view now s.cache (get_key s.prefix identifier action)))))
  unfolding get_rate_limit_info
  info_lem now identifier action config s up =
      rw
        (get_current_requests_lem cache Up view is_cache now (get_key s.prefix identifier action)
          (window_start_of config now) s up)
        refl

  -- what a check at the same time would find after one that was allowed
  added_lem :
      (config : RateLimitConfig) (now : ℕ) (before : Option WindowData)
      → 0 < config.window_seconds
      → current_of config now
          (stored now config.window_seconds (added now config.window_seconds before) now)
        ≡ current_of config now before + 1
  added_lem config now before positive = ground (
    arith,
    current_lem config now (some (added now config.window_seconds before)),
    count-added config.window_seconds now now before (omega arith),
    current_lem config now before,
  )

  current_after :
      (config : RateLimitConfig) (now : ℕ) (key : String) (s s1 : Limiter cache)
      (result : RateLimitResult)
      → 0 < config.window_seconds
      → Checked cache Up view is_cache config now key s s1 result
      → current_of config now (view now s1.cache key)
        ≡ current_of config now (view now s.cache key) + (if result.allowed then 1 else 0)
  current_after config now key s s1 result positive d =
      let read = d.reads now key (omega arith) in
      elim (Bool-cases result.allowed) [
        | inl passed ↦
            rw (read, passed, str_eq_refl key)
              (added_lem config now (view now s.cache key) positive)
        | inr refused ↦ rw (read, refused) (omega arith)
      ]

  -- an emptied key has no requests
  reset_view :
      (now : ℕ) (key : String) (c : CacheApi.State cache)
      → Up c
      → view now (cache.delete now key c).1 key ≡ none
  reset_view now key c up =
      is_cache.delete_removes now now key key c up (omega arith)
      ∙ ap (λ (b : Bool). if b then none else view now c key) (str_eq_refl key)

  -- While the cache is up, a check and a `get_rate_limit_info` at the same time agree: it reports the
  -- details of the check's result. After a reset at that time it reports no requests at all.
  pub info_after_check :
      (now : ℕ) (identifier action : String) (config : RateLimitConfig) (s : Limiter cache)
      → Up s.cache
      → 0 < config.window_seconds
      → (result : RateLimitResult) × (s1 s2 : Limiter cache) × (b : Bool) × (check_rate_limit cache
            now identifier action config s
          ≡ (ok result, s1))
        × ((get_rate_limit_info cache now identifier action config s1).0 ≡ ok result.details)
        × (reset_rate_limit cache now identifier action s1 ≡ (ok b, s2))
        × ((get_rate_limit_info cache now identifier action config s2).0
            ≡ ok (some (details_of config now 0)))
  unfolding reset_rate_limit valid_requests
  info_after_check now identifier action config s up positive =
      let key = get_key s.prefix identifier action in
      let (result, s1, e, d) =
        check_rate_limit_lem cache Up view is_cache now identifier action config s up positive in
      let (up2, (b, gone)) = is_cache.delete_up now key s1.cache d.up in
      let s2 : Limiter cache = record s1 { cache = (cache.delete now key s1.cache).1 } in
      let same_key : get_key s1.prefix identifier action ≡ key =
        ap (λ p. get_key p identifier action) d.prefix in
      (
        result,
        s1,
        s2,
        b,
        e,
        info_lem now identifier action config s1 d.up
            ∙ ap
                (λ k.
                  ok (some (details_of config now (current_of config now (view now s1.cache k)))))
                same_key
            ∙ ap (λ (n : ℕ). ok (some (details_of config now n)))
                (current_after config now key s s1 result positive d)
            ∙ ap ok (sym d.details),
        rw (same_key, gone),
        info_lem now identifier action config s2 up2
            ∙ ap
                (λ k.
                  ok (some (details_of config now (current_of config now (view now s2.cache k)))))
                same_key
            ∙ ap
                (λ (o : Option WindowData).
                  ok (some (details_of config now (current_of config now o))))
                (reset_view now key s1.cache d.up),
      )
