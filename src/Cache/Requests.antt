-- ===== src/Cache/Requests.antt =====
-- Runs of the operations of `AsyncRedisCache` in apps/core/cache/async_cache.py.
use taunggyi_city_church.Common.{
  ℕ, ◌+◌, ◌≡◌, refl, Bool, true, false, Option, none, some, List, [], ◌∷◌, String, arith, count,
  ltb, ◌==◌, or_else, if◌then◌else◌,
}
use taunggyi_city_church.Common.Dict.{Dict, insert}
use taunggyi_city_church.Common.Exec.{Exec, Outcome, ok, raised, pure, ◌>>=◌}
use taunggyi_city_church.Cache.Redis.{RedisApi, Json}
use taunggyi_city_church.Cache.Async.{
  Cache, Metrics, on_client, execute, safe_serialize, safe_deserialize,
}
use taunggyi_city_church.Cache.Operations
use taunggyi_city_church.Cache.Operations.{
  put, write, remove, found, flush_keys, collect, count_operation, count_hit, count_miss, count_set,
  count_delete,
}
use taunggyi_city_church.Cache.Accounting.{
  Uncounted, Accounted, on_client-Uncounted, bind-Uncounted, execute-Accounted,
}

pub data Request (V : Type 0) : Type 0 where
  get delete flush_pattern exists ttl incr : String → Request V
  set : String → V → Option ℕ → Request V
  get_many : List String → Request V
  expire : String → ℕ → Request V

-- The operations that add to the counter of operations.
abbrev pub is_counted : {V : Type 0} → Request V → Bool
is_counted (exists _) = false
is_counted (ttl _) = false
is_counted (incr _) = false
is_counted (expire _ _) = false
is_counted _ = true

module _ (redis : RedisApi) {V : Type 0} (json : Json V) where
  -- The state that a request leaves, whether it returns or raises.
  pub perform : ℕ → Request V → Cache redis → Cache redis
  perform now (get key) s = (Operations.get redis json now key s).1
  perform now (delete key) s = (Operations.delete redis now key s).1
  perform now (flush_pattern text) s = (Operations.flush_pattern redis now text s).1
  perform now (exists key) s = (Operations.exists redis now key s).1
  perform now (ttl key) s = (Operations.ttl redis now key s).1
  perform now (incr key) s = (Operations.incr redis now key s).1
  perform now (set key value seconds) s = (Operations.set redis json now key value seconds s).1
  perform now (get_many keys) s = (Operations.get_many redis json now keys s).1
  perform now (expire key seconds) s = (Operations.expire redis now key seconds s).1

  pub perform_all : List (ℕ × Request V) → Cache redis → Cache redis
  perform_all [] s = s
  perform_all ((now, request) ∷ rest) s = perform_all rest (perform now request s)

  found-Uncounted : (value : Option String) → Uncounted redis (found redis json value)
  found-Uncounted none s = omega arith
  found-Uncounted (some text) s = omega arith

  flush_keys-Uncounted :
      (now : ℕ) (keys : List String) → Uncounted redis (flush_keys redis now keys)
  flush_keys-Uncounted now [] s = omega arith
  flush_keys-Uncounted now (key ∷ keys) s =
      ground (arith, on_client-Uncounted redis (redis.delete now (key ∷ keys)) s)

  remove-Uncounted : (now : ℕ) (key : String) → Uncounted redis (remove redis now key)
  unfolding remove
  remove-Uncounted now key s =
      ground (arith, on_client-Uncounted redis (redis.delete now (key ∷ [])) s)

  exists-Uncounted :
      (now : ℕ) (key : String)
      → Uncounted redis (on_client redis (redis.exists now key) >>= λ n. pure (ltb 0 n))
  exists-Uncounted now key s = ground (arith, on_client-Uncounted redis (redis.exists now key) s)

  write-Uncounted :
      (now : ℕ) (key text : String) (seconds : ℕ)
      → Uncounted redis (write redis json now key text seconds)
  unfolding write
  write-Uncounted now key text seconds s = ground (
    arith,
    on_client-Uncounted redis
        (if seconds == 0 then redis.set now key text else redis.setex now key seconds text) s,
  )

  put-Uncounted :
      (now : ℕ) (key : String) (v : V) (seconds : Option ℕ)
      → Uncounted redis (put redis json now key v seconds)
  unfolding put
  put-Uncounted now key v seconds s =
      write-Uncounted now key (safe_serialize json v) (or_else seconds s.default_ttl) s

  collect-Uncounted :
      (keys : List String) (values : List (Option String)) (results : Dict (Option V))
      → Uncounted redis (collect redis json keys values results)
  unfolding collect
  collect-Uncounted [] values results s = omega arith
  collect-Uncounted (key ∷ keys) [] results s = omega arith
  collect-Uncounted (key ∷ keys) (none ∷ values) results s =
      ground
        (arith, collect-Uncounted keys values results (record s { metrics = count_miss s.metrics }))
  collect-Uncounted (key ∷ keys) (some text ∷ values) results s = ground (
    arith,
    collect-Uncounted keys values (insert key (safe_deserialize json text) results)
        (record s { metrics = count_hit s.metrics }),
  )

  abbrev accounted : Cache redis → ℕ
  accounted s = s.metrics.successful_operations + s.metrics.failed_operations

  -- one request adds one call, and one operation if it is counted
  abbrev Advances : ℕ → Cache redis → Cache redis → Type 0
  Advances counted s s' =
      (accounted s' ≡ accounted s + 1) × (s'.metrics.operations ≡ s.metrics.operations + counted)

  Accounted-Advances :
      {A : Type 0} (counted : ℕ) (s : Cache redis) (m : Metrics) (r : Outcome A) (s' : Cache redis)
      → m.operations ≡ s.metrics.operations + counted
      → m.successful_operations ≡ s.metrics.successful_operations
      → m.failed_operations ≡ s.metrics.failed_operations
      → Accounted redis m (r, s')
      → Advances counted s s'
  Accounted-Advances counted s m (ok a) s' o u f h = ground (arith, h)
  Accounted-Advances counted s m (raised e) s' o u f h = ground (arith, h)

  module _ {A : Type 0} (now : ℕ) (operation : Exec (Cache redis) A) (s : Cache redis)
      (u : Uncounted redis operation) where
    -- a call that was counted before it went to the breaker, and one that was not
    counted-Advances :
        Advances 1 s
          (execute redis now operation (record s { metrics = count_operation s.metrics })).1
    counted-Advances =
        let s0 : Cache redis = record s { metrics = count_operation s.metrics } in
        let done = execute redis now operation s0 in
        Accounted-Advances 1 s s0.metrics done.0 done.1 refl refl refl
          (execute-Accounted redis now operation s0 u)

    uncounted-Advances : Advances 0 s (execute redis now operation s).1
    uncounted-Advances =
        let done = execute redis now operation s in
        Accounted-Advances 0 s s.metrics done.0 done.1 (omega arith) refl refl
          (execute-Accounted redis now operation s u)

  perform-Advances :
      (now : ℕ) (request : Request V) (s : Cache redis)
      → Advances (if is_counted request then 1 else 0) s (perform now request s)
  unfolding perform Operations.get Operations.delete Operations.flush_pattern Operations.exists
      Operations.ttl Operations.incr Operations.set Operations.get_many Operations.expire
  perform-Advances now (get key) s =
      counted-Advances now (on_client redis (redis.get now key) >>= found redis json) s (
        bind-Uncounted redis (on_client redis (redis.get now key)) (found redis json)
          (on_client-Uncounted redis (redis.get now key)) found-Uncounted)
  perform-Advances now (delete key) s =
      counted-Advances now (remove redis now key) s (remove-Uncounted now key)
  perform-Advances now (flush_pattern text) s =
      counted-Advances now (on_client redis (redis.keys now text) >>= flush_keys redis now) s (
        bind-Uncounted redis (on_client redis (redis.keys now text)) (flush_keys redis now)
          (on_client-Uncounted redis (redis.keys now text)) (flush_keys-Uncounted now))
  perform-Advances now (exists key) s =
      uncounted-Advances now (on_client redis (redis.exists now key) >>= λ n. pure (ltb 0 n)) s
        (exists-Uncounted now key)
  perform-Advances now (ttl key) s =
      uncounted-Advances now (on_client redis (redis.ttl now key)) s
        (on_client-Uncounted redis (redis.ttl now key))
  perform-Advances now (incr key) s =
      uncounted-Advances now (on_client redis (redis.incr now key)) s
        (on_client-Uncounted redis (redis.incr now key))
  perform-Advances now (set key value seconds) s =
      counted-Advances now (put redis json now key value seconds) s
        (put-Uncounted now key value seconds)
  perform-Advances now (get_many keys) s =
      counted-Advances now
        (on_client redis (redis.mget now keys) >>= λ values. collect redis json keys values []) s
        (bind-Uncounted redis (on_client redis (redis.mget now keys))
          (λ values. collect redis json keys values [])
          (on_client-Uncounted redis (redis.mget now keys))
          (λ values. collect-Uncounted keys values []))
  perform-Advances now (expire key seconds) s =
      uncounted-Advances now (on_client redis (redis.expire now key seconds)) s
        (on_client-Uncounted redis (redis.expire now key seconds))

  -- In any run of the operations, whatever Redis answers, each call is accounted once, as successful
  -- or as failed: the two counters grow together by the number of calls, and the counter of
  -- operations by the number of those that are not `exists`, `ttl`, `expire` or `incr`. (So the
  -- success rate of `health_check`, successful calls over operations, can pass 1.)
  pub calls_accounted :
      (requests : List (ℕ × Request V)) (s : Cache redis)
      → let s' = perform_all requests s in
        (s'.metrics.successful_operations + s'.metrics.failed_operations
          ≡ s.metrics.successful_operations
            + s.metrics.failed_operations
            + count (λ _. true) requests)
        × (s'.metrics.operations ≡ s.metrics.operations + count (λ x. is_counted x.1) requests)
  unfolding perform_all
  calls_accounted [] s = omega arith
  calls_accounted ((now, request) ∷ rest) s =
      ground (arith, perform-Advances now request s, calls_accounted rest (perform now request s))
