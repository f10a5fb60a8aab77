-- ===== src/Snowflake.antt =====
-- apps/tcc/utils/snowflake.py: the generator of the primary keys of every model. Text of log
-- records is not modelled.
pub mod Generator
pub mod Layout
pub mod Sequence
pub mod Increase
pub mod Batch
pub mod Progress
pub mod Counter
mod Tests
use taunggyi_city_church.Common.{ℕ, ◌+◌, ◌-◌, ◌*◌, ◌^◌, ◌&&◌, not, if◌then◌else◌}
use taunggyi_city_church.Common.Int.{ℤ, pos, pos_part, leb_ℤ, shl, shr, or_int, and_int}
use taunggyi_city_church.Common.Exec.{value_error, Outcome, ok, raised}

abbrev pub sequence_bits : ℕ
sequence_bits = 12

abbrev pub machine_bits : ℕ
machine_bits = 5

abbrev pub datacenter_bits : ℕ
datacenter_bits = 5

abbrev pub max_datacenter_id : ℕ
max_datacenter_id = 2 ^ datacenter_bits - 1

abbrev pub max_machine_id : ℕ
max_machine_id = 2 ^ machine_bits - 1

abbrev pub max_sequence : ℕ
max_sequence = 2 ^ sequence_bits - 1

abbrev pub timestamp_shift : ℕ
timestamp_shift = sequence_bits + machine_bits + datacenter_bits

abbrev pub datacenter_shift : ℕ
datacenter_shift = sequence_bits + machine_bits

abbrev pub machine_shift : ℕ
machine_shift = sequence_bits

-- The attributes that `__init__` sets from the settings. The epoch is in milliseconds.
pub record Config : Type 0 where
  pub datacenter_id : ℕ
  pub machine_id : ℕ
  pub epoch : ℕ

-- `DjangoSnowflakeGenerator.__init__`: both numbers are checked against their field.
unfoldable pub init : ℤ → ℤ → ℕ → Outcome Config
init datacenter_id machine_id epoch =
    if not (leb_ℤ (pos 0) datacenter_id && leb_ℤ datacenter_id (pos max_datacenter_id))
    then raised value_error
    else if not (leb_ℤ (pos 0) machine_id && leb_ℤ machine_id (pos max_machine_id))
    then raised value_error
    else ok (record {
      datacenter_id = pos_part datacenter_id;
      machine_id = pos_part machine_id;
      epoch = epoch;
    })

-- `(timestamp << 22) | (datacenter_id << 17) | (machine_id << 12) | sequence`
unfoldable pub compose : Config → ℤ → ℕ → ℤ
compose c timestamp sequence =
    or_int
      (or_int (or_int (shl timestamp timestamp_shift) (c.datacenter_id * 2 ^ datacenter_shift))
        (c.machine_id * 2 ^ machine_shift))
      sequence

pub record Parts : Type 0 where
  pub timestamp : ℤ
  pub datacenter_id : ℕ
  pub machine_id : ℕ
  pub sequence : ℕ

-- `decompose_id`, without the formatted date
unfoldable pub decompose_id : ℤ → Parts
decompose_id id = record {
  timestamp = shr id timestamp_shift;
  datacenter_id = and_int (shr id datacenter_shift) max_datacenter_id;
  machine_id = and_int (shr id machine_shift) max_machine_id;
  sequence = and_int id max_sequence;
}
