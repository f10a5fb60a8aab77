-- ===== src/Cache/Api.antt =====
-- What the token services use of a cache, and what they rely on. apps/core/cache/async_cache.py
-- provides it, as `Cache.Refines` shows.
use taunggyi_city_church.Common.{
  ℕ, ◌+◌, ◌*◌, ◌≤◌, ◌<◌, ◌≡◌, Bool, true, Option, none, some, String, ltb, str_eq, if◌then◌else◌,
}
use taunggyi_city_church.Common.Exec.{Exec, ok}
use taunggyi_city_church.Cache.Breaker.{ticks}

-- The operations, at a time in microseconds. Each may raise.
pub record CacheApi (V : Type 0) : Type 1 where
  pub State : Type 0
  pub get : ℕ → String → Exec State (Option V)
  pub set : ℕ → String → V → ℕ → Exec State Bool
  pub delete : ℕ → String → Exec State Bool

-- What is read at time t after a value was stored at time `now` for `ttl` seconds.
abbrev pub stored {ℓ} : {V : Type ℓ} → ℕ → ℕ → V → ℕ → Option V
stored now ttl v t = if ltb t (now + ttl * ticks) then some v else none

-- `view t s k` is what a `get` of k at the time t answers if nothing is called until then. While
-- the cache is up, as `Up` says, it answers, and a value that was stored stays until its time is
-- over.
pub record IsCache {V : Type 0} (cache : CacheApi V) (Up : CacheApi.State cache → Type 0)
    (view : ℕ → CacheApi.State cache → String → Option V) : Type 0 where
  pub get_up : (now : ℕ) (k : String) (s : CacheApi.State cache) → Up s → Up (cache.get now k s).1
  pub get_reads :
      (now : ℕ) (k : String) (s : CacheApi.State cache)
      → Up s
      → (cache.get now k s).0 ≡ ok (view now s k)
  pub get_keeps :
      (now t : ℕ) (k j : String) (s : CacheApi.State cache)
      → Up s
      → now ≤ t
      → view t (cache.get now k s).1 j ≡ view t s j
  pub set_up :
      (now ttl : ℕ) (k : String) (v : V) (s : CacheApi.State cache)
      → Up s
      → 0 < ttl
      → Up (cache.set now k v ttl s).1 × ((cache.set now k v ttl s).0 ≡ ok true)
  pub set_writes :
      (now ttl t : ℕ) (k j : String) (v : V) (s : CacheApi.State cache)
      → Up s
      → 0 < ttl
      → now ≤ t
      → view t (cache.set now k v ttl s).1 j
        ≡ (if str_eq k j then stored now ttl v t else view t s j)
  pub delete_up :
      (now : ℕ) (k : String) (s : CacheApi.State cache)
      → Up s
      → Up (cache.delete now k s).1 × ((b : Bool) × ((cache.delete now k s).0 ≡ ok b))
  pub delete_removes :
      (now t : ℕ) (k j : String) (s : CacheApi.State cache)
      → Up s
      → now ≤ t
      → view t (cache.delete now k s).1 j ≡ (if str_eq k j then none else view t s j)
