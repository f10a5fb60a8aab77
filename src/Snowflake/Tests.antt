-- ===== src/Snowflake/Tests.antt =====
-- Runs of the generator, and its theorems at concrete inputs.
use taunggyi_city_church.Common.{ℕ, ◌+◌, ◌/◌, ◌<◌, ◌≡◌, refl, false, none, List, arith, length}
use taunggyi_city_church.Common.Int.{ℤ, pos}
use taunggyi_city_church.Common.Exec.{value_error, attribute_error, ok, raised}
use taunggyi_city_church.Snowflake.{Config, init, compose, decompose_id}
use taunggyi_city_church.Snowflake.Layout.{decompose-compose, compose_bounds}
use taunggyi_city_church.Snowflake.Generator.{
  DjangoCache, State, generate_id, batch_generate_ids, locals,
}
use taunggyi_city_church.Snowflake.Sequence.{CounterLaws}
use taunggyi_city_church.Snowflake.Progress.{MovesOn}
use taunggyi_city_church.Snowflake.Batch.{IsReady, IsIncreasing, batch_increases}
use taunggyi_city_church.Snowflake.Counter.{Shows, processes_collide}

abbrev epoch : ℕ
epoch = 1672531200000

abbrev config : Config
config = record { datacenter_id = 1; machine_id = 1; epoch = epoch }

init_default : init (pos 1) (pos 1) epoch ≡ ok config
unfolding init
init_default = refl

init_rejects : init (pos 32) (pos 1) epoch ≡ raised value_error
unfolding init
init_rejects = refl

decompose-compose_example :
    decompose_id (compose config (pos 123456) 789)
    ≡ record { timestamp = pos 123456; datacenter_id = 1; machine_id = 1; sequence = 789 }
decompose-compose_example =
    decompose-compose (pos 1) (pos 1) epoch 123456 789 init_default (omega arith)

compose_bounds_example :
    (n : ℕ) × (compose config (pos 123456) 789 ≡ pos n) × (n < 9223372036854775808)
compose_bounds_example =
    compose_bounds (pos 1) (pos 1) epoch 123456 789 init_default (omega arith) (omega arith)

-- Django's local memory cache, where nothing was set; it has no `expire`.
abbrev empty_cache : DjangoCache
empty_cache = record {
  Store = Unit;
  incr = λ k s. (raised value_error, s);
  delete = λ k s. (ok false, s);
  expire = λ k n s. (raised attribute_error, s);
}

abbrev empty_laws : CounterLaws empty_cache
empty_laws = record {
  has_key = λ s k. false;
  incr_missing = λ k s h. refl;
  incr_makes_none = λ k j s h. refl;
}

-- a clock that is read fifty times in a millisecond
abbrev steady : ℕ → ℕ
steady n = epoch + n / 50

steady-MovesOn : MovesOn epoch steady
steady-MovesOn = record {
  after_epoch = λ n. omega arith;
  never_back = λ n. omega arith;
  advances = λ n. omega arith;
}

abbrev fresh_state : State Unit
fresh_state = record { local = none; reads = 0; store = tt }

fresh-IsReady : IsReady empty_cache empty_laws steady config steady-MovesOn fresh_state
unfolding locals
fresh-IsReady = record { fits = omega arith; behind = refl; unset = λ k. refl }

batch_increases_example :
    (ids : List ℤ) × (s' : State Unit) × (batch_generate_ids empty_cache steady config 3 fresh_state
      ≡ (ok ids, s'))
    × IsIncreasing ids
    × (length ids ≡ 3)
batch_increases_example =
    batch_increases empty_cache empty_laws steady (pos 1) (pos 1) epoch config fresh_state 3
      init_default steady-MovesOn fresh-IsReady (omega arith) (omega arith)

-- two new processes, the second one after the first id of the other
first-Shows : Shows empty_cache empty_laws config steady 0 fresh_state
unfolding locals
first-Shows = record { since = omega arith; now = omega arith; after = refl }

processes_collide_example :
    (id : ℤ) × ((generate_id empty_cache steady config fresh_state).0 ≡ ok id)
    × ((generate_id empty_cache steady config fresh_state).0 ≡ ok id)
processes_collide_example =
    processes_collide empty_cache empty_laws config steady steady 0 fresh_state fresh_state
      (λ k. refl) first-Shows first-Shows refl refl
