-- ===== src/Snowflake/Increase.antt =====
-- The identifiers that one thread draws from apps/tcc/utils/snowflake.py increase.
use taunggyi_city_church.Common.{
  ℕ, suc, ◌+◌, ◌-◌, ◌*◌, ◌≤◌, ◌<◌, ◌≡◌, refl, ◌∙◌, false, some, arith, ◌==◌, Bool-cases, inl, inr,
  ap,
}
use taunggyi_city_church.Common.Int.{ℤ, pos, negsuc, ltb_ℤ, eqb_ℤ}
use taunggyi_city_church.Common.Exec.{Outcome, ok, raised, ◌>>=◌, ◌>>◌, continue, pure}
use taunggyi_city_church.Snowflake.{Config, compose, max_sequence}
use taunggyi_city_church.Snowflake.Generator.{
  DjangoCache, Local, State, locals, stamp, wait_for_next_millis, get_distributed_sequence, choose,
  generate_id,
}
use taunggyi_city_church.Snowflake.Sequence.{
  CounterLaws, IsUnset, incr-IsUnset, key_of, next_of, drawn, falls_back, current_timestamp_lem,
  wait_lem,
}

-- Where a pair of timestamp and sequence number stands in the order of the identifiers.
abbrev pub place : ℤ → ℕ → ℕ
place (pos t) sequence = suc (t * 4096 + sequence)
place (negsuc _) sequence = 0

locals_of-local :
    {Store : Type 0} (s s' : State Store)
    → s'.local ≡ s.local
    → (locals s').sequence ≡ (locals s).sequence
unfolding locals
locals_of-local s s' h = rw h

locals-some : {Store : Type 0} (s : State Store) {l : Local} → s.local ≡ some l → locals s ≡ l
unfolding locals
locals-some s h = rw h

locals_drawn :
    {Store : Type 0} (s : State Store) {l : Local}
    → s.local ≡ some l
    → (locals s).sequence ≡ l.sequence
locals_drawn s h = ap Local.sequence (locals-some s h)

module _ (cache : DjangoCache) (laws : CounterLaws cache) (clock : ℕ → ℕ) (c : Config)
    (after_epoch : (n : ℕ) → c.epoch ≤ clock n) where
  open cache use {Store}

  -- What a chosen pair and the state left behind have to do with the attributes `l` before.
  pub record Chosen (l : Local) (time : ℤ) (sequence : ℕ) (s' : State Store) : Type 0 where
    pub fits : sequence ≤ max_sequence
    pub after : (t : ℕ) × (time ≡ pos t)
    pub later : place l.last_timestamp l.sequence < place time sequence
    pub kept : (locals s').sequence ≡ sequence
    pub unset : IsUnset cache laws clock c s'.store

  abbrev pub Ends : Local → Outcome (ℤ × ℕ) × State Store → Type 0
  Ends l (ok (time, sequence), s') = Chosen l time sequence s'
  Ends l (raised _, s') = Unit

  draw-Chosen :
      (l : Local) (t : ℕ) (s : State Store)
      → IsUnset cache laws clock c s.store
      → place l.last_timestamp l.sequence < place (pos t) (next_of cache laws clock c s)
      → Chosen l (pos t) (next_of cache laws clock c s) (drawn cache laws clock c (pos t) s)
  unfolding locals
  draw-Chosen l t s unset later = record {
    fits = omega arith;
    after = (t, refl);
    later = later;
    kept = refl;
    unset = incr-IsUnset cache laws clock c (key_of cache laws clock c (pos t)) s.store unset;
  }

  -- The rest of `choose` after the wait for the next millisecond.
  after_wait-Ends :
      (l : Local) (s s' : State Store) (r : Outcome ℤ)
      → l.sequence ≤ max_sequence
      → (locals s).sequence ≡ 0
      → IsUnset cache laws clock c s.store
      → wait_for_next_millis cache clock c l.last_timestamp s ≡ (r, s')
      → Ends l (
          continue r
            (λ next. get_distributed_sequence cache clock c next >>= λ fresh. pure (next, fresh))
            s')
  after_wait-Ends l s s' (raised e) fits zeroed unset h = tt
  after_wait-Ends l s s' (ok next) fits zeroed unset h =
      let (t, at, past, same_local, same_store) =
        wait_lem cache laws clock c after_epoch l.last_timestamp s s' next h in
      let unset' : IsUnset cache laws clock c s'.store = λ k. rw same_store (unset k) in
      let zeroed' : (locals s').sequence ≡ 0 = locals_of-local s s' same_local ∙ zeroed in
      rw (at, falls_back cache laws clock c (pos t) s' unset')
        (draw-Chosen l t s' unset' (ground (arith, past, at, zeroed', fits)))

  choose-Ends :
      (l : Local) (t : ℕ) (s : State Store)
      → s.local ≡ some l
      → l.sequence ≤ max_sequence
      → ltb_ℤ (pos t) l.last_timestamp ≡ false
      → IsUnset cache laws clock c s.store
      → Ends l (choose cache clock c l.last_timestamp (pos t) s)
  unfolding choose
  choose-Ends l t s el fits not_before unset =
      let number : (locals s).sequence ≡ l.sequence = ap Local.sequence (locals-some s el) in
      let later = drawn cache laws clock c (pos t) s in
      let waited = wait_for_next_millis cache clock c l.last_timestamp later in
      elim (Bool-cases (eqb_ℤ (pos t) l.last_timestamp)) [
        | inl same ↦ elim (Bool-cases (next_of cache laws clock c s == 0)) [
          | inl wrapped ↦
              rw (same, falls_back cache laws clock c (pos t) s unset, wrapped)
                (after_wait-Ends l later waited.1 waited.0 fits
                  (locals_drawn later refl ∙ ground (arith, wrapped))
                  (incr-IsUnset cache laws clock c (key_of cache laws clock c (pos t)) s.store
                    unset)
                  refl)
          | inr fresh ↦
              rw (same, falls_back cache laws clock c (pos t) s unset, fresh)
                (draw-Chosen l t s unset (ground (arith, number)))
        ]
        | inr other ↦
            rw (other, falls_back cache laws clock c (pos t) s unset)
              (draw-Chosen l t s unset (ground (arith, number)))
      ]

  -- An identifier, and the state that its call leaves behind.
  pub record Issued (s : State Store) (id : ℤ) (s' : State Store) : Type 0 where
    pub time : ℕ
    pub sequence : ℕ
    pub fits : sequence ≤ max_sequence
    pub made : id ≡ compose c (pos time) sequence
    pub later : place (locals s).last_timestamp (locals s).sequence < place (pos time) sequence
    pub left : locals s' ≡ record { sequence = sequence; last_timestamp = pos time }
    pub unset : IsUnset cache laws clock c s'.store

  abbrev pub Issues : State Store → Outcome ℤ × State Store → Type 0
  Issues s (ok id, s') = Issued s id s'
  Issues s (raised _, s') = Unit

  -- What `generate_id` does with the chosen pair.
  stamp-Issues :
      (s s1 : State Store) (r : Outcome (ℤ × ℕ))
      → Ends (locals s) (r, s1)
      → Issues s (continue r (λ x. stamp cache clock c x.0 >> pure (compose c x.0 x.1)) s1)
  unfolding locals
  stamp-Issues s s1 (raised e) h = tt
  stamp-Issues s s1 (ok (time, sequence)) h =
      let (t, at) = h.after in
      record {
        time = t;
        sequence = sequence;
        fits = h.fits;
        made = rw at;
        later = rw at at (h.later);
        left = cc (at, h.kept);
        unset = h.unset;
      }

  pub generate_id-Issues :
      (s : State Store)
      → (locals s).sequence ≤ max_sequence
      → IsUnset cache laws clock c s.store
      → Issues s (generate_id cache clock c s)
  unfolding generate_id
  generate_id-Issues s fits unset =
      let l : Local = locals s in
      let t : ℕ = clock s.reads - c.epoch in
      let s0 : State Store = record s { local = some l } in
      let s1 : State Store = record s0 { reads = s.reads + 1 } in
      let chosen = choose cache clock c l.last_timestamp (pos t) s1 in
      elim (Bool-cases (ltb_ℤ (pos t) l.last_timestamp)) [
        | inl before ↦ rw (current_timestamp_lem cache laws clock c after_epoch s0, before) tt
        | inr not_before ↦
            rw (current_timestamp_lem cache laws clock c after_epoch s0, not_before)
              (stamp-Issues s chosen.1 chosen.0 (choose-Ends l t s1 refl fits not_before unset))
      ]
