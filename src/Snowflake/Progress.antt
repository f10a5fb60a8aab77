-- ===== src/Snowflake/Progress.antt =====
-- `generate_id` of apps/tcc/utils/snowflake.py returns while the clock moves forward.
use taunggyi_city_church.Common.{
  ℕ, zero, suc, ◌+◌, ◌-◌, ◌≤◌, ◌<◌, ◌≡◌, refl, true, false, arith, ◌==◌, Bool-cases, inl, inr, ap,
  some,
}
use taunggyi_city_church.Common.Int.{ℤ, pos, leb_ℤ, ltb_ℤ, eqb_ℤ}
use taunggyi_city_church.Common.Exec.{ok}
use taunggyi_city_church.Snowflake.{Config, compose}
use taunggyi_city_church.Snowflake.Generator.{
  DjangoCache, State, locals, wait_loop, wait_for_next_millis, choose, generate_id,
}
use taunggyi_city_church.Snowflake.Sequence.{
  CounterLaws, IsUnset, incr-IsUnset, key_of, next_of, drawn, falls_back, current_timestamp_lem,
}

-- The readings are after the epoch, never go back, and advance by a millisecond within the hundred
-- readings of one wait.
pub record MovesOn (epoch : ℕ) (clock : ℕ → ℕ) : Type 0 where
  pub after_epoch : (n : ℕ) → epoch ≤ clock n
  pub never_back : (n : ℕ) → clock n ≤ clock (suc n)
  pub advances : (n : ℕ) → clock n < clock (n + 100)

eqb→eq : (a b : ℤ) → eqb_ℤ a b ≡ true → a ≡ b
eqb→eq (pos a) (pos b) h = ground arith
eqb→eq _ _ h = ground arith

module _ (cache : DjangoCache) (laws : CounterLaws cache) (clock : ℕ → ℕ) (c : Config)
    (moves : MovesOn c.epoch clock) where
  open cache use {Store}

  abbrev reading : ℕ → ℕ
  reading n = clock n - c.epoch

  reading_mono : (n : ℕ) → reading n ≤ reading (n + 1)
  reading_mono n = let e : n + 1 ≡ suc n = omega arith in rw e (omega (arith, moves.never_back n))

  reading_cong : (a b : ℕ) → a ≡ b → reading a ≡ reading b
  reading_cong a b e = ap reading e

  -- Where the reading in `rounds` rounds is after `last`, it still is one round later.
  still_far :
      (reads rounds last : ℕ)
      → last < reading (reads + rounds)
      → reading reads ≤ last
      → (1 ≤ rounds) × (last < reading (reads + 1 + (rounds - 1)))
  still_far reads zero last far near =
      absurd (omega (arith, reading_cong (reads + zero) reads (omega arith)))
  still_far reads (suc r) last far near = (
    omega arith,
    omega (arith, reading_cong (reads + suc r) (reads + 1 + (suc r - 1)) (omega arith)),
  )

  -- The wait ends after `last` if the last reading that it may make is after `last`.
  wait_loop_passes :
      (rounds last t : ℕ) (s : State Store)
      → t ≤ reading s.reads
      → (t ≤ last → (1 ≤ rounds) × (last < reading (s.reads + (rounds - 1))))
      → (t' : ℕ) × (reads : ℕ) × (wait_loop cache clock c rounds (pos last) (pos t) s
          ≡ (ok (pos t'), record s { reads = reads }))
        × (last < t')
        × (t' ≤ reading reads)
  unfolding wait_loop
  wait_loop_passes zero last t s h far = (t, s.reads, refl, ground (arith, far), h)
  wait_loop_passes (suc rounds) last t s h far = elim (Bool-cases (leb_ℤ (pos t) (pos last))) [
    | inl waits ↦
        let reached : last < reading (s.reads + rounds) = omega (
          arith,
          (far (ground (arith, waits))).1,
          reading_cong (s.reads + (suc rounds - 1)) (s.reads + rounds) (omega arith),
        ) in
        let (t', reads, e, past, read) =
          wait_loop_passes rounds last (reading s.reads) (record s { reads = s.reads + 1 })
            (reading_mono s.reads) (still_far s.reads rounds last reached) in
        (
          t',
          reads,
          rw (waits, current_timestamp_lem cache laws clock c moves.after_epoch s) e,
          past,
          read,
        )
    | inr done ↦ (t, s.reads, rw done, ground (arith, done), h)
  ]

  -- The last timestamp is not after what the clock shows next.
  abbrev pub IsBehind : State Store → Type 0
  IsBehind s = ltb_ℤ (pos (reading s.reads)) (locals s).last_timestamp ≡ false

  wait_passes :
      (last : ℕ) (s : State Store)
      → last ≤ reading s.reads
      → (t : ℕ) × (reads : ℕ) × (wait_for_next_millis cache clock c (pos last) s
          ≡ (ok (pos t), record s { reads = reads }))
        × (t ≤ reading reads)
  unfolding wait_for_next_millis
  wait_passes last s h =
      let first = current_timestamp_lem cache laws clock c moves.after_epoch s in
      let (t, reads, e, past, read) =
        wait_loop_passes 100 last (reading s.reads) (record s { reads = s.reads + 1 })
          (reading_mono s.reads)
          (still_far s.reads 100 last
            (omega (arith, moves.advances s.reads, moves.after_epoch s.reads))) in
      (t, reads, ground (arith, first, e, past), read)

  choose_returns :
      (last : ℤ) (t : ℕ) (s : State Store)
      → t ≤ reading s.reads
      → IsUnset cache laws clock c s.store
      → (t' : ℕ) × (q : ℕ) × (s' : State Store) × (choose cache clock c last (pos t) s
          ≡ (ok (pos t', q), s'))
        × (t' ≤ reading s'.reads)
  unfolding choose
  choose_returns last t s h unset =
      let s1 = drawn cache laws clock c (pos t) s in
      let fall = falls_back cache laws clock c (pos t) s unset in
      let unset1 =
        incr-IsUnset cache laws clock c (key_of cache laws clock c (pos t)) s.store unset in
      elim (Bool-cases (eqb_ℤ (pos t) last)) [
        | inl same ↦ elim (Bool-cases (next_of cache laws clock c s == 0)) [
          | inl wrapped ↦
              let (t', reads, e, read) = wait_passes t s1 h in
              let s2 : State Store = record s1 { reads = reads } in
              (
                t',
                next_of cache laws clock c s2,
                drawn cache laws clock c (pos t') s2,
                rw (
                  same,
                  fall,
                  wrapped,
                  ← eqb→eq (pos t) last same,
                  e,
                  falls_back cache laws clock c (pos t') s2 unset1,
                ),
                read,
              )
          | inr fresh ↦ (t, next_of cache laws clock c s, s1, rw (same, fall, fresh), h)
        ]
        | inr other ↦ (t, next_of cache laws clock c s, s1, rw (other, fall), h)
      ]

  pub generate_id_returns :
      (s : State Store)
      → IsBehind s
      → IsUnset cache laws clock c s.store
      → (id : ℤ) × (s' : State Store) × (generate_id cache clock c s ≡ (ok id, s')) × IsBehind s'
  unfolding generate_id locals
  generate_id_returns s behind unset =
      let l = locals s in
      let s0 : State Store = record s { local = some l } in
      let s1 : State Store = record s0 { reads = s.reads + 1 } in
      let (t, q, s2, e, read) =
        choose_returns l.last_timestamp (reading s.reads) s1 (reading_mono s.reads) unset in
      (
        compose c (pos t) q,
        record s2 { local = some (record (locals s2) { last_timestamp = pos t }) },
        rw (current_timestamp_lem cache laws clock c moves.after_epoch s0, behind, e),
        ground (arith, read),
      )
