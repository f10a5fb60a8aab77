-- ===== src/Cache/Redis.antt =====
-- The client of redis.asyncio, and the text of json, as apps/core/cache/async_cache.py uses them.
use taunggyi_city_church.Common.{
  ℕ, ◌≤◌, ◌<◌, ◌≡◌, Bool, true, Option, none, List, [], ◌∷◌, String, str_eq, if◌then◌else◌,
}
use taunggyi_city_church.Common.Int.{ℤ}
use taunggyi_city_church.Common.Exec.{Exec, ok}
use taunggyi_city_church.Cache.Api.{stored}

-- The commands, each at the time at which it is served. Each may raise. `ttl` answers -1 for a key
-- with no time limit and -2 for one that is not there.
pub record RedisApi : Type 1 where
  pub Server : Type 0
  pub ping : ℕ → Exec Server Unit
  pub get : ℕ → String → Exec Server (Option String)
  pub setex : ℕ → String → ℕ → String → Exec Server Bool
  pub set : ℕ → String → String → Exec Server Bool
  pub delete : ℕ → List String → Exec Server ℕ
  pub mget : ℕ → List String → Exec Server (List (Option String))
  pub keys : ℕ → String → Exec Server (List String)
  pub exists : ℕ → String → Exec Server ℕ
  pub ttl : ℕ → String → Exec Server ℤ
  pub expire : ℕ → String → ℕ → Exec Server Bool
  pub incr : ℕ → String → Exec Server ℕ

-- `json.dumps(…, default=str)`, none where it raises; `str`; and `json.loads`, none for a text that
-- it refuses and for null, which the cache gives back as None alike.
pub record Json (V : Type 0) : Type 0 where
  pub dumps : V → Option String
  pub str : V → String
  pub loads : String → Option V

-- What Redis documents: while the server is up it answers, SETEX stores for its time, DEL removes.
pub record RedisLaws (redis : RedisApi) : Type 1 where
  pub Up : RedisApi.Server redis → Type 0
  pub view : ℕ → RedisApi.Server redis → String → Option String
  pub ping_up :
      (now : ℕ) (s : RedisApi.Server redis)
      → Up s
      → Up (redis.ping now s).1 × ((redis.ping now s).0 ≡ ok tt)
  pub ping_keeps :
      (now t : ℕ) (j : String) (s : RedisApi.Server redis)
      → Up s
      → now ≤ t
      → view t (redis.ping now s).1 j ≡ view t s j
  pub get_up :
      (now : ℕ) (k : String) (s : RedisApi.Server redis)
      → Up s
      → Up (redis.get now k s).1 × ((redis.get now k s).0 ≡ ok (view now s k))
  pub get_keeps :
      (now t : ℕ) (k j : String) (s : RedisApi.Server redis)
      → Up s
      → now ≤ t
      → view t (redis.get now k s).1 j ≡ view t s j
  pub setex_up :
      (now ttl : ℕ) (k text : String) (s : RedisApi.Server redis)
      → Up s
      → 0 < ttl
      → Up (redis.setex now k ttl text s).1 × ((redis.setex now k ttl text s).0 ≡ ok true)
  pub setex_writes :
      (now ttl t : ℕ) (k j text : String) (s : RedisApi.Server redis)
      → Up s
      → 0 < ttl
      → now ≤ t
      → view t (redis.setex now k ttl text s).1 j
        ≡ (if str_eq k j then stored now ttl text t else view t s j)
  pub delete_up :
      (now : ℕ) (k : String) (s : RedisApi.Server redis)
      → Up s
      → Up (redis.delete now (k ∷ []) s).1 × ((n : ℕ) × ((redis.delete now (k ∷ []) s).0 ≡ ok n))
  pub delete_removes :
      (now t : ℕ) (k j : String) (s : RedisApi.Server redis)
      → Up s
      → now ≤ t
      → view t (redis.delete now (k ∷ []) s).1 j ≡ (if str_eq k j then none else view t s j)
