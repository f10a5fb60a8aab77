-- ===== src/Cache/Breaker.antt =====
-- apps/core/cache/async_cache.py: `CircuitBreaker`. Times are microseconds, as datetime counts them.
use taunggyi_city_church.Common.{
  ℕ, ◌+◌, ◌*◌, ◌≤◌, ◌<◌, ◌≡◌, Bool, true, false, Option, none, some, arith, ltb, leb, if◌then◌else◌,
  refl, ◌↔◌, inl, inr, Bool-cases,
}

abbrev pub ticks : ℕ
ticks = 1000000

pub data BreakerState : Type 0 where
  closed opened half_open : BreakerState

pub record CircuitBreaker : Type 0 where
  pub failure_threshold : ℕ
  pub recovery_timeout : ℕ
  pub failures : ℕ
  pub last_failure_time : Option ℕ
  pub state : BreakerState

-- `CircuitBreaker.__init__`
abbrev pub new_breaker : ℕ → ℕ → CircuitBreaker
new_breaker failure_threshold recovery_timeout = record {
  failure_threshold = failure_threshold;
  recovery_timeout = recovery_timeout;
  failures = 0;
  last_failure_time = none;
  state = closed;
}

-- `self.last_failure_time and (now - self.last_failure_time).total_seconds() > self.recovery_timeout`
unfoldable pub has_recovered : ℕ → CircuitBreaker → Bool
has_recovered now b = elim b.last_failure_time [
  | none ↦ false
  | some at ↦ ltb (at + b.recovery_timeout * ticks) now
]

abbrev can_execute_in : BreakerState → ℕ → CircuitBreaker → Bool × CircuitBreaker
can_execute_in opened now b =
    if has_recovered now b then (true, record b { state = half_open }) else (false, b)
can_execute_in closed now b = (true, b)
can_execute_in half_open now b = (true, b)

unfoldable pub can_execute : ℕ → CircuitBreaker → Bool × CircuitBreaker
unfolding has_recovered
can_execute now b = can_execute_in b.state now b

abbrev on_success_in : BreakerState → CircuitBreaker → CircuitBreaker
on_success_in half_open b = record b { state = closed; failures = 0 }
on_success_in closed b = b
on_success_in opened b = b

unfoldable pub on_success : CircuitBreaker → CircuitBreaker
on_success b = on_success_in b.state b

unfoldable pub on_failure : ℕ → CircuitBreaker → CircuitBreaker
on_failure now b =
    let failures : ℕ = b.failures + 1 in
    record b {
      failures = failures;
      last_failure_time = some now;
      state = if leb b.failure_threshold failures then opened else b.state;
    }

-- A closed breaker is below its threshold; one that is not has reached it, and an open one knows
-- when it failed last.
abbrev InState : BreakerState → CircuitBreaker → Type 0
InState closed b = b.failures < b.failure_threshold
InState opened b = (b.failure_threshold ≤ b.failures) × ((at : ℕ) × (b.last_failure_time ≡ some at))
InState half_open b = b.failure_threshold ≤ b.failures

pub record IsValid (b : CircuitBreaker) : Type 0 where
  pub positive : 0 < b.failure_threshold
  pub in_state : InState b.state b

-- The calls that the cache makes of the breaker.
pub data Step : CircuitBreaker → CircuitBreaker → Type 0 where
  ask : (now : ℕ) (b : CircuitBreaker) → Step b (can_execute now b).1
  success : (b : CircuitBreaker) → Step b (on_success b)
  failure : (now : ℕ) (b : CircuitBreaker) → Step b (on_failure now b)

pub data Reach (b : CircuitBreaker) : CircuitBreaker → Type 0 where
  here : Reach b b
  next : {c d : CircuitBreaker} → Reach b c → Step c d → Reach b d

pub can_execute-IsValid : (now : ℕ) (b : CircuitBreaker) → IsValid b → IsValid (can_execute now b).1
unfolding can_execute
can_execute-IsValid now b v = ground arith

pub on_success-IsValid : (b : CircuitBreaker) → IsValid b → IsValid (on_success b)
unfolding on_success
on_success-IsValid b v = ground arith

still_below :
    (st : BreakerState) (now : ℕ) (b : CircuitBreaker)
    → InState st b
    → leb b.failure_threshold (b.failures + 1) ≡ false
    → InState st (record b { failures = b.failures + 1; last_failure_time = some now })
still_below closed now b h room = ground arith
still_below opened now b h room = absurd (ground arith)
still_below half_open now b h room = absurd (ground arith)

pub on_failure-IsValid : (now : ℕ) (b : CircuitBreaker) → IsValid b → IsValid (on_failure now b)
unfolding on_failure
on_failure-IsValid now b v = elim (Bool-cases (leb b.failure_threshold (b.failures + 1))) [
  | inl full ↦ record {
    positive = v.positive;
    in_state = rw full (ground (arith, full), (now, refl));
  }
  | inr room ↦ record {
    positive = v.positive;
    in_state = rw room (still_below b.state now b v.in_state room);
  }
]

Step-IsValid : {b c : CircuitBreaker} → Step b c → IsValid b → IsValid c
Step-IsValid (ask now b) v = can_execute-IsValid now b v
Step-IsValid (success b) v = on_success-IsValid b v
Step-IsValid (failure now b) v = on_failure-IsValid now b v

-- Whatever calls are made of a breaker with a positive threshold, a closed one has had fewer
-- failures than the threshold, and one that is open or half open has had as many or more; an open
-- one has the time of its last failure.
pub Reach-IsValid :
    (threshold timeout : ℕ) {b : CircuitBreaker}
    → 0 < threshold
    → Reach (new_breaker threshold timeout) b
    → IsValid b
Reach-IsValid threshold timeout h here = record { positive = h; in_state = h }
Reach-IsValid threshold timeout h (next r st) =
    Step-IsValid st (Reach-IsValid threshold timeout h r)

-- A valid open breaker lets a call pass exactly when more than the recovery timeout has gone by
-- since its last failure; it is half open then, and unchanged otherwise. A failure while it is half
-- open opens it again at once.
pub opened_until :
    (b : CircuitBreaker) (now : ℕ)
    → IsValid b
    → b.state ≡ opened
    → (at : ℕ) × (b.last_failure_time ≡ some at)
      × (((can_execute now b).0 ≡ true) ↔ (at + b.recovery_timeout * ticks < now))
      × (can_execute now b ≡ (
          if ltb (at + b.recovery_timeout * ticks) now
          then (true, record b { state = half_open })
          else (false, b)))
      × ((on_failure now (record b { state = half_open })).state ≡ opened)
unfolding can_execute on_failure
opened_until b now v h =
    let open_now = rw h at (v.in_state) in
    let (at, e) = open_now.1 in
    let reached = open_now.0 in
    (at, e, ground (arith, e, h), ground (arith, e, h), ground (arith, reached))

-- A closed breaker lets every call pass, and a success leaves it alone.
pub can_execute-closed :
    (now : ℕ) (b : CircuitBreaker) → b.state ≡ closed → can_execute now b ≡ (true, b)
unfolding can_execute
can_execute-closed now b h = ground arith

pub on_success-closed : (b : CircuitBreaker) → b.state ≡ closed → on_success b ≡ b
unfolding on_success
on_success-closed b h = ground arith
