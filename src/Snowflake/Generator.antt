-- ===== src/Snowflake/Generator.antt =====
-- apps/tcc/utils/snowflake.py: `generate_id` and what it calls. The generator's lock makes each call
-- one step of its thread.
use taunggyi_city_church.Common.{
  ℕ, zero, suc, ◌+◌, Bool, Option, some, List, [], ◌∷◌, bit_and, ltb, leb, ◌==◌, not, ◌&&◌, or_else,
  if◌then◌else◌,
}
use taunggyi_city_church.Common.Int.{ℤ, negsuc, sub_ℕ, ltb_ℤ, leb_ℤ, eqb_ℤ}
use taunggyi_city_church.Common.Exec.{
  clock_drift, value_error, Exec, pure, raise, gets, ok, catch, ◌>>=◌, ◌>>◌, raise_if,
}
use taunggyi_city_church.Snowflake.{Config, compose, max_sequence}

-- The key f"snowflake_{datacenter_id}_{machine_id}_seq_{timestamp}", by the numbers in it.
pub record SequenceKey : Type 0 where
  pub datacenter_id : ℕ
  pub machine_id : ℕ
  pub timestamp : ℤ

-- What the generator calls of Django's `cache`. Every call may raise.
pub record DjangoCache : Type 1 where
  pub Store : Type 0
  pub incr : SequenceKey → Exec Store ℕ
  pub delete : SequenceKey → Exec Store Bool
  pub expire : SequenceKey → ℕ → Exec Store Bool

-- The thread's own attributes.
pub record Local : Type 0 where
  pub sequence : ℕ
  pub last_timestamp : ℤ

-- The thread's attributes, none before the first call of `_init_local`, which sets both; the number
-- of readings of the clock so far; and the cache.
pub record State (Store : Type 0) : Type 0 where
  pub local : Option Local
  pub reads : ℕ
  pub store : Store

-- A call of the cache.
abbrev pub on_store : {Store A : Type 0} → Exec Store A → Exec (State Store) A
on_store m s = let (r, store) = m s.store in (r, record s { store = store })

-- The thread's attributes as `_init_local` leaves them.
unfoldable pub locals : {Store : Type 0} → State Store → Local
locals s = or_else s.local (record { sequence = 0; last_timestamp = negsuc 0 })

abbrev pub set_local : {Store : Type 0} → Local → Exec (State Store) Unit
set_local l s = (ok tt, record s { local = some l })

-- `clock n` is what the n-th reading of `int(time.time() * 1000)` gives.
module _ (cache : DjangoCache) (clock : ℕ → ℕ) (c : Config) where
  open cache use {Store, incr, delete, expire}

  -- `_current_timestamp`
  unfoldable pub current_timestamp : Exec (State Store) ℤ
  current_timestamp s = (ok (sub_ℕ (clock s.reads) c.epoch), record s { reads = s.reads + 1 })

  -- The loop of `_wait_for_next_millis` with the rounds that are left of its 100.
  unfoldable pub wait_loop : ℕ → ℤ → ℤ → Exec (State Store) ℤ
  wait_loop zero last timestamp = pure timestamp
  wait_loop (suc rounds) last timestamp =
      if leb_ℤ timestamp last then current_timestamp >>= wait_loop rounds last else pure timestamp

  unfoldable pub wait_for_next_millis : ℤ → Exec (State Store) ℤ
  wait_for_next_millis last = do
    first ← current_timestamp
    timestamp ← wait_loop 100 last first
    raise_if (leb_ℤ timestamp last) clock_drift
    pure timestamp

  -- The body of the `try` in `_get_distributed_sequence`.
  unfoldable pub cached_sequence : SequenceKey → Exec (State Store) ℕ
  cached_sequence key = do
    first ← on_store (incr key)
    sequence ←
        (if ltb max_sequence first
          then on_store (delete key) >>= (λ _. on_store (incr key))
          else pure first)
    on_store (expire key 1)
    pure sequence

  -- The handler of the same `try`.
  unfoldable pub local_sequence : Exec (State Store) ℕ
  unfolding locals
  local_sequence s =
      let l = locals s in
      let next : ℕ = bit_and (l.sequence + 1) max_sequence in
      (ok next, record s { local = some (record l { sequence = next }) })

  unfoldable pub get_distributed_sequence : ℤ → Exec (State Store) ℕ
  unfolding cached_sequence local_sequence
  get_distributed_sequence timestamp =
      catch
        (cached_sequence (record {
          datacenter_id = c.datacenter_id;
          machine_id = c.machine_id;
          timestamp = timestamp;
        }))
        (λ _. local_sequence)

  -- The two branches of `generate_id` that choose the timestamp and the sequence number.
  unfoldable pub choose : ℤ → ℤ → Exec (State Store) (ℤ × ℕ)
  choose last timestamp =
      if eqb_ℤ timestamp last
      then (do
        sequence ← get_distributed_sequence timestamp
        if sequence == 0
            then (do
              next ← wait_for_next_millis last
              fresh ← get_distributed_sequence next
              pure (next, fresh))
            else pure (timestamp, sequence))
      else (do sequence ← get_distributed_sequence timestamp; pure (timestamp, sequence))

  -- `self._local.last_timestamp = timestamp`
  abbrev pub stamp : ℤ → Exec (State Store) Unit
  stamp timestamp s =
      (ok tt, record s { local = some (record (locals s) { last_timestamp = timestamp }) })

  unfoldable pub generate_id : Exec (State Store) ℤ
  unfolding locals
  generate_id = do
    l ← gets locals
    set_local l
    timestamp ← current_timestamp
    raise_if (ltb_ℤ timestamp l.last_timestamp) clock_drift
    (time, sequence) ← choose l.last_timestamp timestamp
    stamp time
    pure (compose c time sequence)

  -- `[self.generate_id() for _ in range(count)]`
  unfoldable pub generate_many : ℕ → Exec (State Store) (List ℤ)
  generate_many zero = pure []
  generate_many (suc n) = do id ← generate_id; rest ← generate_many n; pure (id ∷ rest)

  unfoldable pub batch_generate_ids : ℕ → Exec (State Store) (List ℤ)
  batch_generate_ids count =
      if not (leb 1 count && leb count 1000) then raise value_error else generate_many count
