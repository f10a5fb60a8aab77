-- ===== src/Snowflake/Sequence.antt =====
-- How `_get_distributed_sequence` and `_wait_for_next_millis` of apps/tcc/utils/snowflake.py end,
-- over a cache that keeps Django's promise about `incr`.
use taunggyi_city_church.Common.{
  ℕ, zero, suc, ◌+◌, ◌-◌, ◌%◌, ◌≤◌, ◌≡◌, refl, ◌∙◌, Bool, false, some, arith, Bool-cases, inl, inr,
}
use taunggyi_city_church.Common.Bits.{bit_and-mask}
use taunggyi_city_church.Common.Int.{ℤ, pos, leb_ℤ}
use taunggyi_city_church.Common.Exec.{ok, raised, value_error}
use taunggyi_city_church.Snowflake.{Config}
use taunggyi_city_church.Snowflake.Generator.{
  DjangoCache, SequenceKey, State, locals, current_timestamp, wait_loop, wait_for_next_millis,
  get_distributed_sequence,
}

-- Django's cache raises ValueError where `incr` meets no value, and makes none. (The program sets
-- none either.)
pub record CounterLaws (cache : DjangoCache) : Type 0 where
  pub has_key : DjangoCache.Store cache → SequenceKey → Bool
  pub incr_missing :
      (k : SequenceKey) (s : DjangoCache.Store cache)
      → has_key s k ≡ false
      → (cache.incr k s).0 ≡ raised value_error
  pub incr_makes_none :
      (k j : SequenceKey) (s : DjangoCache.Store cache)
      → has_key s k ≡ false
      → has_key (cache.incr k s).1 j ≡ has_key s j

module _ (cache : DjangoCache) (laws : CounterLaws cache) (clock : ℕ → ℕ) (c : Config) where
  open cache use {Store, incr}

  -- No counter has been set.
  abbrev pub IsUnset : Store → Type 0
  IsUnset store = (k : SequenceKey) → laws.has_key store k ≡ false

  pub incr-IsUnset : (k : SequenceKey) (store : Store) → IsUnset store → IsUnset (incr k store).1
  incr-IsUnset k store h j = laws.incr_makes_none k j store (h k) ∙ h j

  -- the key of a timestamp
  abbrev pub key_of : ℤ → SequenceKey
  key_of timestamp = record {
    datacenter_id = c.datacenter_id;
    machine_id = c.machine_id;
    timestamp = timestamp;
  }

  -- the next number of the thread's own sequence
  abbrev pub next_of : State Store → ℕ
  next_of s = ((locals s).sequence + 1) % 4096

  -- the state once it is drawn
  abbrev pub drawn : ℤ → State Store → State Store
  drawn timestamp s = record s {
    local = some (record (locals s) { sequence = next_of s });
    store = (incr (key_of timestamp) s.store).1;
  }

  -- Without counters the generator falls back to the thread's own sequence.
  pub falls_back :
      (timestamp : ℤ) (s : State Store)
      → IsUnset s.store
      → get_distributed_sequence cache clock c timestamp s ≡ (ok (next_of s), drawn timestamp s)
  unfolding get_distributed_sequence locals
  falls_back timestamp s h = ground (
    arith,
    laws.incr_missing (key_of timestamp) s.store (h (key_of timestamp)),
    bit_and-mask 12 ((locals s).sequence + 1),
  )

  module _ (after_epoch : (n : ℕ) → c.epoch ≤ clock n) where
    pub current_timestamp_lem :
        (s : State Store)
        → current_timestamp cache clock c s
          ≡ (ok (pos (clock s.reads - c.epoch)), record s { reads = s.reads + 1 })
    unfolding current_timestamp
    current_timestamp_lem s = ground (arith, after_epoch s.reads)

    wait_loop_lem :
        (rounds : ℕ) (last : ℤ) (t : ℕ) (s : State Store)
        → (t' : ℕ) × (reads : ℕ) × (wait_loop cache clock c rounds last (pos t) s
            ≡ (ok (pos t'), record s { reads = reads }))
    unfolding wait_loop
    wait_loop_lem zero last t s = (t, s.reads, refl)
    wait_loop_lem (suc rounds) last t s = elim (Bool-cases (leb_ℤ (pos t) last)) [
      | inl waits ↦
          let (t', reads, e) =
            wait_loop_lem rounds last (clock s.reads - c.epoch)
              (record s { reads = s.reads + 1 }) in
          (t', reads, rw (waits, current_timestamp_lem s) e)
      | inr done ↦ (t, s.reads, rw done)
    ]

    -- A wait that ends without a raise ends after `last`, and touches neither the thread's
    -- attributes nor the cache.
    pub wait_lem :
        (last : ℤ) (s s' : State Store) (next : ℤ)
        → wait_for_next_millis cache clock c last s ≡ (ok next, s')
        → (t : ℕ) × (next ≡ pos t)
          × (leb_ℤ next last ≡ false)
          × (s'.local ≡ s.local)
          × (s'.store ≡ s.store)
    unfolding wait_for_next_millis
    wait_lem last s s' next h =
        let first = current_timestamp_lem s in
        let (t, reads, e) =
          wait_loop_lem 100 last (clock s.reads - c.epoch) (record s { reads = s.reads + 1 }) in
        (
          t,
          ground (arith, first, e),
          ground (arith, first, e),
          ground (arith, first, e),
          ground (arith, first, e),
        )
