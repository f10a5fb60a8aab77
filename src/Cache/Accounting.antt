-- ===== src/Cache/Accounting.antt =====
-- What the metrics of `AsyncRedisCache` in apps/core/cache/async_cache.py count, whatever Redis
-- answers.
use taunggyi_city_church.Common.{ℕ, ◌+◌, ◌≡◌, refl, Bool, true, false, arith, Bool-cases, inl, inr}
use taunggyi_city_church.Common.Exec.{
  Exn, Exec, Outcome, ok, raised, ◌>>=◌, continue, handle, connection_error,
}
use taunggyi_city_church.Cache.Breaker.{can_execute}
use taunggyi_city_church.Cache.Redis.{RedisApi}
use taunggyi_city_church.Cache.Async.{
  Cache, Metrics, on_client, connect, ensure_connected, attempt, fail, execute, succeed, operate,
}

-- The three counters that calls are accounted by.
pub record Same (a b : Metrics) : Type 0 where
  pub operations : b.operations ≡ a.operations
  pub successful : b.successful_operations ≡ a.successful_operations
  pub failed : b.failed_operations ≡ a.failed_operations

module _ (redis : RedisApi) where
  -- an operation that leaves those counters alone
  abbrev pub Uncounted : {A : Type 0} → Exec (Cache redis) A → Type 0
  Uncounted m = (s : Cache redis) → Same s.metrics (m s).1.metrics

  connect-Uncounted : (now : ℕ) → Uncounted (connect redis now)
  unfolding connect
  connect-Uncounted now s = ground arith

  ensure_connected-Uncounted : (now : ℕ) → Uncounted (ensure_connected redis now)
  unfolding ensure_connected
  ensure_connected-Uncounted now s =
      let (r, server) = redis.ping now s.server in
      ground (
        arith,
        connect-Uncounted now s,
        connect-Uncounted now (record s {
          is_connected = false;
          has_client = false;
          has_pool = false;
          server = server;
        }),
      )

  pub on_client-Uncounted :
      {A : Type 0} (m : Exec (RedisApi.Server redis) A) → Uncounted (on_client redis m)
  unfolding on_client
  on_client-Uncounted m s = ground arith

  continue-Uncounted :
      {A B : Type 0} (r : Outcome A) (f : A → Exec (Cache redis) B) (m : Metrics) (s : Cache redis)
      → ((a : A) → Uncounted (f a))
      → Same m s.metrics
      → Same m (continue r f s).1.metrics
  continue-Uncounted (ok a) f m s hf h = ground (arith, hf a s)
  continue-Uncounted (raised e) f m s hf h = h

  pub bind-Uncounted :
      {A B : Type 0} (m : Exec (Cache redis) A) (f : A → Exec (Cache redis) B)
      → Uncounted m
      → ((a : A) → Uncounted (f a))
      → Uncounted (m >>= f)
  bind-Uncounted m f hm hf s = continue-Uncounted (m s).0 f s.metrics (m s).1 hf (hm s)

  -- A call through the breaker is accounted once: as successful if it returns, as failed if it
  -- raises.
  abbrev pub Accounted : {A : Type 0} → Metrics → Outcome A × Cache redis → Type 0
  Accounted m (ok _, s') =
      (s'.metrics.operations ≡ m.operations)
      × (s'.metrics.successful_operations ≡ m.successful_operations + 1)
      × (s'.metrics.failed_operations ≡ m.failed_operations)
  Accounted m (raised _, s') =
      (s'.metrics.operations ≡ m.operations)
      × (s'.metrics.successful_operations ≡ m.successful_operations)
      × (s'.metrics.failed_operations ≡ m.failed_operations + 1)

  module _ (A : Type 0) (now : ℕ) (m : Metrics) where
    -- `except Exception as e:` after the body of the `try` has ended
    abbrev rescued : Outcome A × Cache redis → Outcome A × Cache redis
    rescued (r, s) = handle r (fail redis now) s

    fail-Accounted :
        (e : Exn) (s : Cache redis) → Same m s.metrics → Accounted {A = A} m (fail redis now e s)
    unfolding fail
    fail-Accounted e s h = ground (arith, h)

    -- from where the operation has ended, and from where the connection is known
    ended-Accounted :
        (r : Outcome A) (s : Cache redis)
        → Same m s.metrics
        → Accounted m (rescued (continue r (succeed redis) s))
    ended-Accounted (ok a) s h = ground (arith, h)
    ended-Accounted (raised e) s h = fail-Accounted e s h

    connected-Accounted :
        (r : Outcome Bool) (operation : Exec (Cache redis) A) (s : Cache redis)
        → Uncounted operation
        → Same m s.metrics
        → Accounted m
            (rescued (continue r (λ is_up. operate redis operation is_up >>= succeed redis) s))
    connected-Accounted (ok true) operation s u h =
        ended-Accounted (operation s).0 (operation s).1
          (continue-Uncounted (ok tt) (λ _. operation) m s (λ _. u) h)
    connected-Accounted (ok false) operation s u h = fail-Accounted connection_error s h
    connected-Accounted (raised e) operation s u h = fail-Accounted e s h

  pub execute-Accounted :
      {A : Type 0} (now : ℕ) (operation : Exec (Cache redis) A) (s : Cache redis)
      → Uncounted operation
      → Accounted s.metrics (execute redis now operation s)
  unfolding execute attempt
  execute-Accounted {A} now operation s u =
      let s1 : Cache redis = record s { circuit_breaker = (can_execute now s.circuit_breaker).1 } in
      let e = ensure_connected redis now s1 in
      elim (Bool-cases (can_execute now s.circuit_breaker).0) [
        | inl may ↦ rw may (
            connected-Accounted A now s.metrics e.0 operation e.1 u
              (ensure_connected-Uncounted now s1))
        | inr refused ↦ rw refused (refl, refl, refl)
      ]
