-- ===== src/Snowflake/Batch.antt =====
-- `batch_generate_ids` of apps/tcc/utils/snowflake.py: the identifiers of a batch increase.
use taunggyi_city_church.Common.{
  ℕ, zero, suc, ◌+◌, ◌*◌, ◌≤◌, ◌<◌, ◌≡◌, refl, List, [], ◌∷◌, arith, length,
}
use taunggyi_city_church.Common.Int.{ℤ, pos, ◌<ℤ◌}
use taunggyi_city_church.Common.Exec.{Outcome, ok, raised, ◌>>=◌, continue, pure}
use taunggyi_city_church.Snowflake.{Config, init, compose, max_sequence}
use taunggyi_city_church.Snowflake.Layout.{IsValid, init-IsValid, compose_mono}
use taunggyi_city_church.Snowflake.Generator.{
  DjangoCache, State, locals, generate_id, generate_many, batch_generate_ids,
}
use taunggyi_city_church.Snowflake.Sequence.{CounterLaws, IsUnset}
use taunggyi_city_church.Snowflake.Increase.{Issues, generate_id-Issues}
use taunggyi_city_church.Snowflake.Progress.{MovesOn, IsBehind, generate_id_returns}

-- each identifier is greater than the one before it, the first than `a`
abbrev pub IsAbove : ℤ → List ℤ → Type 0
IsAbove a [] = Unit
IsAbove a (id ∷ ids) = (a <ℤ id) × IsAbove id ids

abbrev pub IsIncreasing : List ℤ → Type 0
IsIncreasing [] = Unit
IsIncreasing (id ∷ ids) = IsAbove id ids

module _ (cache : DjangoCache) (laws : CounterLaws cache) (clock : ℕ → ℕ) (c : Config)
    (after_epoch : (n : ℕ) → c.epoch ≤ clock n) (valid : IsValid c) where
  open cache use {Store}

  abbrev Rises : ℤ → ℕ → Outcome (List ℤ) × State Store → Type 0
  Rises a n (ok ids, s') = IsAbove a ids × (length ids ≡ n)
  Rises a n (raised _, s') = Unit

  abbrev Draws : ℕ → Outcome (List ℤ) × State Store → Type 0
  Draws n (ok ids, s') = IsIncreasing ids × (length ids ≡ n)
  Draws n (raised _, s') = Unit

  -- one more identifier before the rest
  cons-Rises :
      (a id : ℤ) (n : ℕ) (r : Outcome (List ℤ)) (s : State Store)
      → a <ℤ id
      → Rises id n (r, s)
      → Rises a (suc n) (continue r (λ rest. pure (id ∷ rest)) s)
  cons-Rises a id n (raised e) s lt h = tt
  cons-Rises a id n (ok ids) s lt h = ((lt, h.0), omega (arith, h.1))

  abbrev RisesAfter : ℕ → Type 0
  RisesAfter n =
      (t q : ℕ) (s : State Store)
      → locals s ≡ record { sequence = q; last_timestamp = pos t }
      → q ≤ max_sequence
      → IsUnset cache laws clock c s.store
      → Rises (compose c (pos t) q) n (generate_many cache clock c n s)

  more-Rises :
      (n t q : ℕ) (s s1 : State Store) (r : Outcome ℤ)
      → RisesAfter n
      → locals s ≡ record { sequence = q; last_timestamp = pos t }
      → q ≤ max_sequence
      → Issues cache laws clock c after_epoch s (r, s1)
      → Rises
          (compose c (pos t) q)
          (suc n)
          (continue r (λ id. generate_many cache clock c n >>= λ rest. pure (id ∷ rest)) s1)
  more-Rises n t q s s1 (raised e) rec at fits h = tt
  more-Rises n t q s s1 (ok id) rec at fits h =
      let rest = generate_many cache clock c n s1 in
      let behind : t * 4096 + q < h.time * 4096 + h.sequence = ground (arith, h.later, at) in
      rw h.made (
        cons-Rises (compose c (pos t) q) (compose c (pos h.time) h.sequence) n rest.0 rest.1
          (compose_mono c valid t q h.time h.sequence fits h.fits behind)
          (rec h.time h.sequence s1 h.left h.fits h.unset))

  generate_many-Rises : (n : ℕ) → RisesAfter n
  unfolding generate_many
  generate_many-Rises zero t q s at fits unset = (tt, refl)
  generate_many-Rises (suc n) t q s at fits unset =
      let first = generate_id cache clock c s in
      more-Rises n t q s first.1 first.0 (generate_many-Rises n) at fits
        (generate_id-Issues cache laws clock c after_epoch s (rw at fits) unset)

  cons-Draws :
      (id : ℤ) (n : ℕ) (r : Outcome (List ℤ)) (s : State Store)
      → Rises id n (r, s)
      → Draws (suc n) (continue r (λ rest. pure (id ∷ rest)) s)
  cons-Draws id n (raised e) s h = tt
  cons-Draws id n (ok ids) s h = (h.0, omega (arith, h.1))

  more-Draws :
      (n : ℕ) (s s1 : State Store) (r : Outcome ℤ)
      → Issues cache laws clock c after_epoch s (r, s1)
      → Draws
          (suc n)
          (continue r (λ id. generate_many cache clock c n >>= λ rest. pure (id ∷ rest)) s1)
  more-Draws n s s1 (raised e) h = tt
  more-Draws n s s1 (ok id) h =
      let rest = generate_many cache clock c n s1 in
      rw h.made (
        cons-Draws (compose c (pos h.time) h.sequence) n rest.0 rest.1
          (generate_many-Rises n h.time h.sequence s1 h.left h.fits h.unset))

  pub generate_many-Draws :
      (n : ℕ) (s : State Store)
      → (locals s).sequence ≤ max_sequence
      → IsUnset cache laws clock c s.store
      → Draws n (generate_many cache clock c n s)
  unfolding generate_many
  generate_many-Draws zero s fits unset = (tt, refl)
  generate_many-Draws (suc n) s fits unset =
      let first = generate_id cache clock c s in
      more-Draws n s first.1 first.0
        (generate_id-Issues cache laws clock c after_epoch s fits unset)

module _ (cache : DjangoCache) (laws : CounterLaws cache) (clock : ℕ → ℕ) (c : Config)
    (moves : MovesOn c.epoch clock) where
  open cache use {Store}

  -- the attributes of the thread fit, the clock is not behind them, and no counter is set
  pub record IsReady (s : State Store) : Type 0 where
    pub fits : (locals s).sequence ≤ max_sequence
    pub behind : IsBehind cache laws clock c moves s
    pub unset : IsUnset cache laws clock c s.store

  Issues-IsReady :
      {s s' : State Store} {id : ℤ}
      → Issues cache laws clock c moves.after_epoch s (ok id, s')
      → IsBehind cache laws clock c moves s'
      → IsReady s'
  Issues-IsReady h behind = record {
    fits = ground (arith, h.fits, h.left);
    behind = behind;
    unset = h.unset;
  }

  generate_many_returns :
      (n : ℕ) (s : State Store)
      → IsReady s
      → (ids : List ℤ) × (s' : State Store) × (generate_many cache clock c n s ≡ (ok ids, s'))
  unfolding generate_many
  generate_many_returns zero s r = ([], s, refl)
  generate_many_returns (suc n) s r =
      let (id, s1, e, behind) = generate_id_returns cache laws clock c moves s r.behind r.unset in
      let issued =
        rw e at (generate_id-Issues cache laws clock c moves.after_epoch s r.fits r.unset) in
      let (ids, s2, e') = generate_many_returns n s1 (Issues-IsReady issued behind) in
      (id ∷ ids, s2, rw (e, e'))

-- A batch of 1 to 1000 identifiers is returned whole: as many as were asked for, each greater than
-- the one before. The settings are accepted by `__init__`; the cache keeps Django's promise that
-- `incr` of a missing key raises, and holds no counter; the clock shows times after the epoch, does
-- not go back and advances within the hundred readings of a wait; and the thread's last timestamp
-- is not ahead of it.
pub batch_increases :
    (cache : DjangoCache) (laws : CounterLaws cache) (clock : ℕ → ℕ) (d m : ℤ) (epoch : ℕ)
    (c : Config) (s : State (DjangoCache.Store cache)) (count : ℕ)
    → init d m epoch ≡ ok c
    → (moves : MovesOn c.epoch clock) → IsReady cache laws clock c moves s
    → 1 ≤ count
    → count ≤ 1000
    → (ids : List ℤ) × (s' : State (DjangoCache.Store cache)) × (batch_generate_ids cache clock c
          count s
        ≡ (ok ids, s'))
      × IsIncreasing ids
      × (length ids ≡ count)
unfolding batch_generate_ids
batch_increases cache laws clock d m epoch c s count made moves ready low high =
    let valid = init-IsValid d m epoch made in
    let (ids, s', e) = generate_many_returns cache laws clock c moves count s ready in
    let draws = rw e at (
      generate_many-Draws cache laws clock c moves.after_epoch valid count s ready.fits
        ready.unset) in
    (ids, s', ground (arith, e), draws.0, draws.1)
