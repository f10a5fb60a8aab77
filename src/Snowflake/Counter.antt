-- ===== src/Snowflake/Counter.antt =====
-- What the shared counter of `_get_distributed_sequence` in apps/tcc/utils/snowflake.py does for two
-- processes of one node, over the cache that they share.
use taunggyi_city_church.Common.{
  ℕ, ◌+◌, ◌-◌, ◌%◌, ◌≤◌, ◌≡◌, refl, sym, ap, ◌∙◌, false, arith, some, subst,
}
use taunggyi_city_church.Common.Int.{ℤ, pos, sub_ℕ, ltb_ℤ, eqb_ℤ, leb_ℤ, negsuc}
use taunggyi_city_church.Common.Exec.{ok}
use taunggyi_city_church.Snowflake.{Config, compose}
use taunggyi_city_church.Snowflake.Generator.{
  DjangoCache, State, locals, choose, generate_id, current_timestamp,
}
use taunggyi_city_church.Snowflake.Sequence.{
  CounterLaws, IsUnset, incr-IsUnset, key_of, next_of, drawn, falls_back,
}

module _ (cache : DjangoCache) (laws : CounterLaws cache) (c : Config) where
  open cache use {Store, incr}

  -- The clock of a process shows the millisecond `t`, after the last one of the thread.
  pub record Shows (clock : ℕ → ℕ) (t : ℕ) (s : State Store) : Type 0 where
    pub since : c.epoch ≤ clock s.reads
    pub now : clock s.reads - c.epoch ≡ t
    pub after : leb_ℤ (pos t) (locals s).last_timestamp ≡ false

  after_not_equal : (t : ℕ) (last : ℤ) → leb_ℤ (pos t) last ≡ false → eqb_ℤ (pos t) last ≡ false
  after_not_equal t (pos n) h = ground (arith, h)
  after_not_equal t (negsuc n) h = ground (arith, h)

  after_not_before : (t : ℕ) (last : ℤ) → leb_ℤ (pos t) last ≡ false → ltb_ℤ (pos t) last ≡ false
  after_not_before t (pos n) h = ground (arith, h)
  after_not_before t (negsuc n) h = ground (arith, h)

  chosen :
      (clock : ℕ → ℕ) (last : ℤ) (t : ℕ) (s : State Store)
      → IsUnset cache laws clock c s.store
      → leb_ℤ (pos t) last ≡ false
      → choose cache clock c last (pos t) s
        ≡ (ok (pos t, next_of cache laws clock c s), drawn cache laws clock c (pos t) s)
  unfolding choose
  chosen clock last t s unset after =
      rw (after_not_equal t last after, falls_back cache laws clock c (pos t) s unset)

  first_of_millisecond :
      (clock : ℕ → ℕ) (t : ℕ) (s : State Store)
      → Shows clock t s
      → IsUnset cache laws clock c s.store
      → (s' : State Store) × (generate_id cache clock c s
          ≡ (ok (compose c (pos t) (((locals s).sequence + 1) % 4096)), s'))
        × IsUnset cache laws clock c s'.store
  unfolding generate_id current_timestamp locals
  first_of_millisecond clock t s h unset =
      let l = locals s in
      let s1 : State Store = record s { local = some l; reads = s.reads + 1 } in
      let time : sub_ℕ (clock s.reads) c.epoch ≡ pos t = ground (arith, h.since, h.now) in
      let s2 = drawn cache laws clock c (pos t) s1 in
      (
        record s2 { local = some (record (locals s2) { last_timestamp = pos t }) },
        rw
            (
              time,
              after_not_before t l.last_timestamp h.after,
              chosen clock l.last_timestamp t s1 unset h.after,
            )
            refl,
        incr-IsUnset cache laws clock c (key_of cache laws clock c (pos t)) s.store unset,
      )

  -- Two processes with the numbers of one node, whose threads are at the same place of their own
  -- sequences, make the same identifier when their clocks show the same new millisecond, though
  -- the second one finds the shared cache as the first one left it: no counter is ever set there,
  -- so both draw from their own sequences.
  pub processes_collide :
      (clock clock' : ℕ → ℕ) (t : ℕ) (s s' : State Store)
      → IsUnset cache laws clock c s.store
      → Shows clock t s
      → Shows clock' t s'
      → (locals s').sequence ≡ (locals s).sequence
      → s'.store ≡ (generate_id cache clock c s).1.store
      → (id : ℤ) × ((generate_id cache clock c s).0 ≡ ok id)
        × ((generate_id cache clock' c s').0 ≡ ok id)
  processes_collide clock clock' t s s' unset h h' same shared =
      let (s1, first, unset1) = first_of_millisecond clock t s h unset in
      let left : s1.store ≡ s'.store = sym (shared ∙ ap (λ p. p.1.store) first) in
      let unset' : IsUnset cache laws clock' c s'.store =
        subst (λ st. IsUnset cache laws clock' c st) left unset1 in
      let (s2, second, unset2) = first_of_millisecond clock' t s' h' unset' in
      (
        compose c (pos t) (((locals s).sequence + 1) % 4096),
        ap (λ p. p.0) first,
        ap (λ p. p.0) second ∙ ap (λ n. ok (compose c (pos t) ((n + 1) % 4096))) same,
      )
