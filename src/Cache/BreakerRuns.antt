-- ===== src/Cache/BreakerRuns.antt =====
-- apps/core/cache/async_cache.py: what opens a `CircuitBreaker` that has not been open yet.
use taunggyi_city_church.Common.{
  ℕ, ◌+◌, ◌<◌, ◌≡◌, refl, ap, ◌∙◌, Option, none, some, List, [], ◌∷◌, arith, leb, count, is_some,
  Bool-cases, inl, inr, if◌then◌else◌,
}
use taunggyi_city_church.Cache.Breaker.{
  CircuitBreaker, BreakerState, closed, opened, new_breaker, on_success, on_failure,
}

-- The reports of calls that were let through: none for a success, the time for a failure.
abbrev pub report : Option ℕ → CircuitBreaker → CircuitBreaker
report none b = on_success b
report (some now) b = on_failure now b

pub reports : List (Option ℕ) → CircuitBreaker → CircuitBreaker
reports [] b = b
reports (e ∷ es) b = reports es (report e b)

abbrev expected : ℕ → ℕ → BreakerState
expected threshold failures = if leb threshold failures then opened else closed

-- A success changes a breaker only while it is half open.
on_success_idle :
    (b : CircuitBreaker) → b.state ≡ expected b.failure_threshold b.failures → on_success b ≡ b
unfolding on_success
on_success_idle b h = elim (Bool-cases (leb b.failure_threshold b.failures)) [
  | inl full ↦ ground (arith, h, full)
  | inr room ↦ ground (arith, h, room)
]

on_failure_state :
    (now : ℕ) (b : CircuitBreaker)
    → b.state ≡ expected b.failure_threshold b.failures
    → (on_failure now b).state ≡ expected b.failure_threshold (b.failures + 1)
unfolding on_failure
on_failure_state now b h = ground (arith, h)

on_failure_counts :
    (now : ℕ) (b : CircuitBreaker)
    → ((on_failure now b).failures ≡ b.failures + 1)
      × ((on_failure now b).failure_threshold ≡ b.failure_threshold)
unfolding on_failure
on_failure_counts now b = (refl, refl)

on_failure_threshold :
    (now : ℕ) (b : CircuitBreaker)
    → (on_failure now b).state ≡ expected b.failure_threshold (b.failures + 1)
    → (on_failure now b).state
      ≡ expected (on_failure now b).failure_threshold (on_failure now b).failures
unfolding on_failure
on_failure_threshold now b h = h

reports_lem :
    (es : List (Option ℕ)) (b : CircuitBreaker)
    → b.state ≡ expected b.failure_threshold b.failures
    → (reports es b).state ≡ expected b.failure_threshold (b.failures + count is_some es)
unfolding reports
reports_lem [] b h = ground (arith, h)
reports_lem (none ∷ es) b h =
    ap (λ (x : CircuitBreaker). (reports es x).state) (on_success_idle b h) ∙ reports_lem es b h
reports_lem (some now ∷ es) b h = ground (
  arith,
  reports_lem es (on_failure now b) (on_failure_threshold now b (on_failure_state now b h)),
  on_failure_counts now b,
)

-- Successes in between do not count: while nothing asks to recover, a new breaker is open exactly
-- when all failures so far, consecutive or not, have reached its positive threshold.
pub failures_accumulate :
    (threshold timeout : ℕ) (es : List (Option ℕ))
    → 0 < threshold
    → (reports es (new_breaker threshold timeout)).state
      ≡ (if leb threshold (count is_some es) then opened else closed)
failures_accumulate threshold timeout es h =
    ground (arith, reports_lem es (new_breaker threshold timeout))
