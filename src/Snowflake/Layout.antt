-- ===== src/Snowflake/Layout.antt =====
-- The bit fields of an identifier of apps/tcc/utils/snowflake.py.
use taunggyi_city_church.Common.{ℕ, ◌+◌, ◌*◌, ◌/◌, ◌^◌, ◌≤◌, ◌<◌, ◌≡◌, ap, ◌∙◌, arith, bit_or}
use taunggyi_city_church.Common.Bits.{bit_or-shifted, bit_and-mask}
use taunggyi_city_church.Common.Int.{ℤ, pos, pos_part, shl, shr, or_int, and_int, ◌<ℤ◌}
use taunggyi_city_church.Common.Exec.{ok}
use taunggyi_city_church.Snowflake.{
  Config, init, compose, decompose_id, max_datacenter_id, max_machine_id, max_sequence,
}

-- Both numbers fit their fields.
pub record IsValid (c : Config) : Type 0 where
  pub datacenter : c.datacenter_id ≤ max_datacenter_id
  pub machine : c.machine_id ≤ max_machine_id

pub init-IsValid : (d m : ℤ) (epoch : ℕ) {c : Config} → init d m epoch ≡ ok c → IsValid c
unfolding init
init-IsValid d m epoch h = ground arith

abbrev pub field_sum : Config → ℕ → ℕ → ℕ
field_sum c t s = t * 4194304 + c.datacenter_id * 131072 + c.machine_id * 4096 + s

-- Each `|` adds, since the lower fields fit under the shift of what is there.
or_fields :
    (t d m s : ℕ)
    → d ≤ 31
    → m ≤ 31
    → s ≤ 4095
    → bit_or (bit_or (bit_or (t * 2 ^ 22) (d * 2 ^ 17)) (m * 2 ^ 12)) s
      ≡ t * 4194304 + d * 131072 + m * 4096 + s
or_fields t d m s hd hm hs =
    let top : bit_or (t * 2 ^ 22) (d * 2 ^ 17) ≡ (t * 32 + d) * 2 ^ 17 =
      omega (arith, bit_or-shifted 22 t (d * 2 ^ 17) (omega arith)) in
    let middle : bit_or ((t * 32 + d) * 2 ^ 17) (m * 2 ^ 12) ≡ (t * 1024 + d * 32 + m) * 2 ^ 12 =
      omega (arith, bit_or-shifted 17 (t * 32 + d) (m * 2 ^ 12) (omega arith)) in
    rw (top, middle) (omega (arith, bit_or-shifted 12 (t * 1024 + d * 32 + m) s (omega arith)))

module _ (c : Config) (v : IsValid c) where
  pub compose-eq-field_sum :
      (t s : ℕ) → s ≤ max_sequence → compose c (pos t) s ≡ pos (field_sum c t s)
  unfolding compose shl or_int
  compose-eq-field_sum t s h =
      ap pos (or_fields t c.datacenter_id c.machine_id s v.datacenter v.machine h)

  -- Later identifiers of one generator are greater: by the timestamp, then by the sequence number.
  pub compose_mono :
      (t s t' s' : ℕ)
      → s ≤ max_sequence
      → s' ≤ max_sequence
      → t * 4096 + s < t' * 4096 + s'
      → compose c (pos t) s <ℤ compose c (pos t') s'
  compose_mono t s t' s' h h' lt =
      rw (compose-eq-field_sum t s h, compose-eq-field_sum t' s' h') (omega arith)

  -- A valid configuration's identifier falls apart into the numbers it was made of.
  pub decompose-compose_valid :
      (t s : ℕ)
      → s ≤ max_sequence
      → decompose_id (compose c (pos t) s) ≡ record {
        timestamp = pos t;
        datacenter_id = c.datacenter_id;
        machine_id = c.machine_id;
        sequence = s;
      }
  unfolding decompose_id shr and_int
  decompose-compose_valid t s h = rw (compose-eq-field_sum t s h) (
      ground (
        arith,
        v.datacenter,
        v.machine,
        bit_and-mask 5 (field_sum c t s / 2 ^ 17),
        bit_and-mask 5 (field_sum c t s / 2 ^ 12),
        bit_and-mask 12 (field_sum c t s),
      ))

-- An identifier that a generator composes from settings which `__init__` accepts decomposes into
-- its timestamp, the two configured numbers and its sequence number, for a timestamp after the
-- epoch and a sequence number of at most 12 bits.
pub decompose-compose :
    (d m : ℤ) (epoch : ℕ) {c : Config} (t s : ℕ)
    → init d m epoch ≡ ok c
    → s ≤ max_sequence
    → decompose_id (compose c (pos t) s) ≡ record {
      timestamp = pos t;
      datacenter_id = pos_part d;
      machine_id = pos_part m;
      sequence = s;
    }
unfolding init
decompose-compose d m epoch {c} t s h hs =
    decompose-compose_valid c (init-IsValid d m epoch h) t s hs ∙ ground arith

-- For a timestamp of at most 41 bits the identifier is a number of at most 63 bits, as the signed
-- 64-bit column of the primary key needs; it is never negative.
pub compose_bounds :
    (d m : ℤ) (epoch : ℕ) {c : Config} (t s : ℕ)
    → init d m epoch ≡ ok c
    → t < 2 ^ 41
    → s ≤ max_sequence
    → (n : ℕ) × (compose c (pos t) s ≡ pos n) × (n < 2 ^ 63)
compose_bounds d m epoch {c} t s h ht hs =
    let v = init-IsValid d m epoch h in
    (field_sum c t s, compose-eq-field_sum c v t s hs, omega (arith, v.datacenter, v.machine))
