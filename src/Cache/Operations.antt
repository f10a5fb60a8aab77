-- ===== src/Cache/Operations.antt =====
-- apps/core/cache/async_cache.py: the operations of `AsyncRedisCache`, each through the breaker.
use taunggyi_city_church.Common.{
  ℕ, ◌+◌, Bool, Option, none, some, List, [], ◌∷◌, String, ltb, length, ◌==◌, or_else,
  if◌then◌else◌,
}
use taunggyi_city_church.Common.Int.{ℤ}
use taunggyi_city_church.Common.Dict.{Dict, insert}
use taunggyi_city_church.Common.Exec.{Exec, pure, gets, ◌>>=◌, ◌>>◌}
use taunggyi_city_church.Cache.Redis.{RedisApi, Json}
use taunggyi_city_church.Cache.Async.{
  Cache, Metrics, safe_serialize, safe_deserialize, on_client, count_metrics, execute,
}

-- `self._metrics["operations"] += 1`, and the like
abbrev pub count_operation : Metrics → Metrics
count_operation m = record m { operations = m.operations + 1 }

abbrev pub count_hit : Metrics → Metrics
count_hit m = record m { hits = m.hits + 1 }

abbrev pub count_miss : Metrics → Metrics
count_miss m = record m { misses = m.misses + 1 }

abbrev pub count_set : Bool → Metrics → Metrics
count_set b m = if b then record m { sets = m.sets + 1 } else m

abbrev pub count_delete : Bool → Metrics → Metrics
count_delete b m = if b then record m { deletes = m.deletes + 1 } else m

module _ (redis : RedisApi) where
  -- `flush_pattern`, with its `if keys:`
  abbrev pub flush_keys : ℕ → List String → Exec (Cache redis) ℕ
  flush_keys now [] = pure 0
  flush_keys now (key ∷ keys) = do
    on_client redis (redis.delete now (key ∷ keys))
    pure (length (key ∷ keys))

  unfoldable pub flush_pattern : ℕ → String → Exec (Cache redis) ℕ
  flush_pattern now pattern_text = do
    count_metrics redis count_operation
    execute redis now (on_client redis (redis.keys now pattern_text) >>= flush_keys now)

  -- `_delete`
  unfoldable pub remove : ℕ → String → Exec (Cache redis) Bool
  remove now key = do
    result ← on_client redis (redis.delete now (key ∷ []))
    count_metrics redis (count_delete (ltb 0 result))
    pure (ltb 0 result)

  unfoldable pub delete : ℕ → String → Exec (Cache redis) Bool
  delete now key = do count_metrics redis count_operation; execute redis now (remove now key)

  unfoldable pub exists : ℕ → String → Exec (Cache redis) Bool
  exists now key = execute redis now (do n ← on_client redis (redis.exists now key); pure (ltb 0 n))

  unfoldable pub ttl : ℕ → String → Exec (Cache redis) ℤ
  ttl now key = execute redis now (on_client redis (redis.ttl now key))

  unfoldable pub expire : ℕ → String → ℕ → Exec (Cache redis) Bool
  expire now key seconds = execute redis now (on_client redis (redis.expire now key seconds))

  unfoldable pub incr : ℕ → String → Exec (Cache redis) ℕ
  incr now key = execute redis now (on_client redis (redis.incr now key))

module _ (redis : RedisApi) {V : Type 0} (json : Json V) where
  -- what `_get` does with the value
  abbrev pub found : Option String → Exec (Cache redis) (Option V)
  found none = do count_metrics redis count_miss; pure none
  found (some text) = do count_metrics redis count_hit; pure (safe_deserialize json text)

  unfoldable pub get : ℕ → String → Exec (Cache redis) (Option V)
  get now key = do
    count_metrics redis count_operation
    execute redis now (on_client redis (redis.get now key) >>= found)

  -- The command of `_set`: a time to live of 0 stores with no time limit
  unfoldable pub write : ℕ → String → String → ℕ → Exec (Cache redis) Bool
  write now key text seconds = do
    result ←
        on_client redis
          (if seconds == 0 then redis.set now key text else redis.setex now key seconds text)
    count_metrics redis (count_set result)
    pure result

  -- `_set`
  unfoldable pub put : ℕ → String → V → Option ℕ → Exec (Cache redis) Bool
  put now key value seconds = do
    default_ttl ← gets (λ s. s.default_ttl)
    write now key (safe_serialize json value) (or_else seconds default_ttl)

  unfoldable pub set : ℕ → String → V → Option ℕ → Exec (Cache redis) Bool
  set now key value seconds = do
    count_metrics redis count_operation
    execute redis now (put now key value seconds)

  -- the loop of `_get_many` over `zip(keys, values)`
  unfoldable pub collect :
      List String → List (Option String) → Dict (Option V) → Exec (Cache redis) (Dict (Option V))
  collect [] values results = pure results
  collect (key ∷ keys) [] results = pure results
  collect (key ∷ keys) (none ∷ values) results = do
    count_metrics redis count_miss
    collect keys values results
  collect (key ∷ keys) (some text ∷ values) results = do
    count_metrics redis count_hit
    collect keys values (insert key (safe_deserialize json text) results)

  unfoldable pub get_many : ℕ → List String → Exec (Cache redis) (Dict (Option V))
  get_many now keys = do
    count_metrics redis count_operation
    execute redis now (do values ← on_client redis (redis.mget now keys); collect keys values [])
