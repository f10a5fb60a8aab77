-- ===== src/Cache/Async.antt =====
-- apps/core/cache/async_cache.py and apps/core/cache/serializer.py: `AsyncRedisCache`. The client's
-- and the pool's own close calls and the log are not modelled.
use taunggyi_city_church.Common.{
  ℕ, ◌+◌, Bool, true, false, ◌&&◌, not, Option, none, some, String, if◌then◌else◌,
}
use taunggyi_city_church.Common.Exec.{
  Exn, connection_error, redis_error, attribute_error, Outcome, ok, raised, Exec, pure, raise, gets,
  catch, ◌>>=◌, ◌>>◌, modify,
}
use taunggyi_city_church.Cache.Breaker.{
  CircuitBreaker, BreakerState, opened, can_execute, on_success, on_failure,
}
use taunggyi_city_church.Cache.Redis.{RedisApi, Json}

pub record Metrics : Type 0 where
  pub operations : ℕ
  pub successful_operations : ℕ
  pub failed_operations : ℕ
  pub circuit_breaker_trips : ℕ
  pub hits : ℕ
  pub misses : ℕ
  pub sets : ℕ
  pub deletes : ℕ
  pub connection_errors : ℕ

-- The attributes of the cache, and the server that it talks to.
pub record AsyncRedisCache (Server : Type 0) : Type 0 where
  pub default_ttl : ℕ
  pub has_pool : Bool
  pub has_client : Bool
  pub is_connected : Bool
  pub circuit_breaker : CircuitBreaker
  pub metrics : Metrics
  pub server : Server

-- `isinstance(e, (ConnectionError, RedisError))`
abbrev pub is_redis_error : Exn → Bool
is_redis_error connection_error = true
is_redis_error redis_error = true
is_redis_error _ = false

abbrev is_open : BreakerState → Bool
is_open opened = true
is_open _ = false

-- `CacheSerializer.safe_serialize(value, JSON)`
unfoldable pub safe_serialize : {V : Type 0} → Json V → V → String
safe_serialize json v = elim (json.dumps v) [ some text ↦ text | none ↦ json.str v ]

-- `CacheSerializer.safe_deserialize(value, JSON)`
unfoldable pub safe_deserialize : {V : Type 0} → Json V → String → Option V
safe_deserialize json text = json.loads text

module _ (redis : RedisApi) where
  open redis use {Server, ping}

  abbrev pub Cache : Type 0
  Cache = AsyncRedisCache Server

  -- A command of the client, at an attribute that may be None.
  unfoldable pub on_client : {A : Type 0} → Exec Server A → Exec Cache A
  on_client m s =
      if s.has_client
      then (let (r, server) = m s.server in (r, record s { server = server }))
      else (raised attribute_error, s)

  abbrev pub count_metrics : (Metrics → Metrics) → Exec Cache Unit
  count_metrics f s = (ok tt, record s { metrics = f s.metrics })

  -- `_close_connection`
  unfoldable pub close_connection : Cache → Cache
  close_connection s = record s { has_pool = false; has_client = false; is_connected = false }

  -- What `_connect` does with the answer of its ping.
  abbrev connected : Outcome (Unit {0}) → Cache → Outcome Bool × Cache
  connected (ok _) s = (ok true, record s { is_connected = true })
  connected (raised _) s = (
    ok false,
    record (close_connection s) {
      metrics = record (s.metrics) { connection_errors = s.metrics.connection_errors + 1 };
    },
  )

  -- `_connect`
  unfoldable pub connect : ℕ → Exec Cache Bool
  unfolding close_connection
  connect now s =
      let (r, server) = ping now s.server in
      connected r
        (record (close_connection s) { has_pool = true; has_client = true; server = server })

  -- What `_ensure_connected` does with the answer of its ping.
  abbrev pinged : ℕ → Outcome (Unit {0}) → Cache → Outcome Bool × Cache
  pinged now (ok _) s = (ok true, s)
  pinged now (raised e) s =
      if is_redis_error e
      then connect now (record s { is_connected = false; has_client = false; has_pool = false })
      else (raised e, s)

  -- `_ensure_connected`
  unfoldable pub ensure_connected : ℕ → Exec Cache Bool
  ensure_connected now s =
      if s.is_connected && s.has_client
      then (let (r, server) = ping now s.server in pinged now r (record s { server = server }))
      else if not s.is_connected
      then connect now s
      else (ok true, s)

  -- the end of the `try` of `_execute_with_circuit_breaker`
  abbrev pub succeed : {A : Type 0} → A → Exec Cache A
  succeed result = do
    modify (λ s. record s { circuit_breaker = on_success s.circuit_breaker })
    count_metrics (λ m. record m { successful_operations = m.successful_operations + 1 })
    pure result

  -- the operation itself, if there is a connection
  abbrev pub operate : {A : Type 0} → Exec Cache A → Bool → Exec Cache A
  operate operation true = operation
  operate operation false = raise connection_error

  -- the body of the same `try`
  unfoldable pub attempt : {A : Type 0} → ℕ → Exec Cache A → Exec Cache A
  attempt now operation = do
    is_up ← ensure_connected now
    result ← operate operation is_up
    succeed result

  -- the handler of the same `try`
  unfoldable pub fail : {A : Type 0} → ℕ → Exn → Exec Cache A
  fail now e = do
    modify (λ s. record s { circuit_breaker = on_failure now s.circuit_breaker })
    count_metrics (λ m. record m { failed_operations = m.failed_operations + 1 })
    state ← gets (λ s. s.circuit_breaker.state)
    count_metrics (λ m.
        if is_open state
        then record m { circuit_breaker_trips = m.circuit_breaker_trips + 1 }
        else m)
    modify (λ s. if is_redis_error e then record s { is_connected = false } else s)
    count_metrics (λ m.
        if is_redis_error e then record m { connection_errors = m.connection_errors + 1 } else m)
    raise e

  -- `_execute_with_circuit_breaker`
  unfoldable pub execute : {A : Type 0} → ℕ → Exec Cache A → Exec Cache A
  execute now operation s =
      let (may, breaker) = can_execute now s.circuit_breaker in
      let s1 : Cache = record s { circuit_breaker = breaker } in
      if may then catch (attempt now operation) (fail now) s1 else (
        raised redis_error,
        record s1 {
          metrics = record (s1.metrics) { failed_operations = s1.metrics.failed_operations + 1 };
        },
      )
