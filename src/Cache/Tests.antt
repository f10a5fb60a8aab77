-- ===== src/Cache/Tests.antt =====
-- Runs of the cache, and its theorems at concrete inputs.
use taunggyi_city_church.Common.{
  ℕ, ◌+◌, ◌*◌, ◌<◌, ◌≡◌, refl, ◌↔◌, true, false, none, some, List, [], ◌∷◌, String, arith, ltb,
  if◌then◌else◌,
}
use taunggyi_city_church.Common.Exec.{ok}
use taunggyi_city_church.Cache.Breaker.{
  ticks, CircuitBreaker, opened, half_open, new_breaker, can_execute, on_success, on_failure,
  IsValid, Reach, here, next, failure, Reach-IsValid, opened_until, has_recovered,
}
use taunggyi_city_church.Cache.BreakerRuns.{reports, failures_accumulate}
use taunggyi_city_church.Cache.Api.{IsCache}
use taunggyi_city_church.Cache.Async.{
  Cache, execute, attempt, ensure_connected, connect, on_client, close_connection, safe_serialize,
  safe_deserialize,
}
use taunggyi_city_church.Cache.Operations.{get, set, put, write}
use taunggyi_city_church.Cache.Requests.{Request, perform_all, calls_accounted}
use taunggyi_city_church.Cache.Refines.{as_api, IsUp}
use taunggyi_city_church.Cache.Implements.{view_of, as_api-IsCache}
use taunggyi_city_church.Cache.Memory.{empty, memory_redis, memory_laws, plain, plain-JsonLaws}

-- Two failures open the breaker for a minute.
abbrev tripped : CircuitBreaker
tripped = record {
  failure_threshold = 2;
  recovery_timeout = 60;
  failures = 2;
  last_failure_time = some 7;
  state = opened;
}

tripped-Reach : Reach (new_breaker 2 60) tripped
unfolding on_failure
tripped-Reach =
    next (next here (failure 3 (new_breaker 2 60))) (failure 7 (on_failure 3 (new_breaker 2 60)))

Reach-IsValid_example : IsValid tripped
Reach-IsValid_example = Reach-IsValid 2 60 (omega arith) tripped-Reach

tripped-IsValid : IsValid tripped
tripped-IsValid = Reach-IsValid 2 60 (omega arith) tripped-Reach

opened_until_example :
    (at : ℕ) × (tripped.last_failure_time ≡ some at)
    × (((can_execute 60000008 tripped).0 ≡ true) ↔ (at + 60 * ticks < 60000008))
    × (can_execute 60000008 tripped ≡ (
        if ltb (at + 60 * ticks) 60000008
        then (true, record tripped { state = half_open })
        else (false, tripped)))
    × ((on_failure 60000008 (record tripped { state = half_open })).state ≡ opened)
opened_until_example = opened_until tripped 60000008 tripped-IsValid refl

failures_accumulate_example :
    (reports (some 3 ∷ none ∷ none ∷ some 7 ∷ []) (new_breaker 2 60)).state ≡ opened
failures_accumulate_example =
    failures_accumulate 2 60 (some 3 ∷ none ∷ none ∷ some 7 ∷ []) (omega arith)

abbrev fresh : Cache memory_redis
fresh = record {
  default_ttl = 3600;
  has_pool = false;
  has_client = false;
  is_connected = false;
  circuit_breaker = new_breaker 5 60;
  metrics = record {
    operations = 0;
    successful_operations = 0;
    failed_operations = 0;
    circuit_breaker_trips = 0;
    hits = 0;
    misses = 0;
    sets = 0;
    deletes = 0;
    connection_errors = 0;
  };
  server = empty;
}

fresh-IsUp : IsUp memory_redis memory_laws fresh
fresh-IsUp = record { breaker = refl; up = tt; client = λ h. absurd (ground (arith, h)) }

as_api-IsCache_example :
    IsCache
      (as_api memory_redis plain)
      (IsUp memory_redis memory_laws)
      (view_of memory_redis memory_laws plain)
as_api-IsCache_example = as_api-IsCache memory_redis memory_laws plain plain-JsonLaws

-- A value that was set is read back through the breaker.
fresh_set : Cache memory_redis
fresh_set = (set memory_redis plain 5 "k" "v" (some 60) fresh).1

set_get : (get memory_redis plain 1000 "k" fresh_set).0 ≡ ok (some "v")
unfolding fresh_set get set put write execute attempt ensure_connected connect on_client
    close_connection safe_serialize safe_deserialize can_execute on_success has_recovered
set_get = refl

abbrev requests : List (ℕ × Request String)
requests = (5, Request.set "k" "v" (some 60)) ∷ (6, Request.exists "k") ∷ (7, Request.get "k") ∷ []

calls_accounted_example :
    let s' = perform_all memory_redis plain requests fresh in
    (s'.metrics.successful_operations + s'.metrics.failed_operations ≡ 3)
    × (s'.metrics.operations ≡ 2)
calls_accounted_example = calls_accounted memory_redis plain requests fresh
