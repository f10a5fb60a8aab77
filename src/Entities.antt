-- ===== src/Entities.antt =====
-- `BaseEntity` of apps/tcc/usecase/entities/base_entity.py, and the enumerations of
-- apps/tcc/models/base/enums.py that the entities test. Times are numbers on one scale.
pub mod Users
pub mod Donations
pub mod Events
pub mod Markup
mod Tests
use Prim.Native.Char.{Char, code}
use Prim.Native.String.{◌++◌}
use taunggyi_city_church.Common.{
  ℕ, Bool, true, false, not, ◌&&◌, ◌||◌, Option, none, some, List, [], ◌∷◌, String, str_eq, or_else,
  is_some, ◌==◌, if◌then◌else◌,
}
use taunggyi_city_church.Common.Exec.{Outcome, ok, raised, attribute_error}
use taunggyi_city_church.Common.Chars.{strip}

pub data UserRole : Type 0 where
  super_admin staff ministry_leader member visitor : UserRole

pub data UserStatus : Type 0 where
  active inactive pending suspended : UserStatus

pub data DonationStatus : Type 0 where
  pending completed failed refunded : DonationStatus

pub data EventStatus : Type 0 where
  draft published cancelled completed upcoming : EventStatus

-- `html.escape` of one character
unfoldable pub escape_char : Char → String
escape_char c =
    if code c == 38
    then "&amp;"
    else if code c == 60
    then "&lt;"
    else if code c == 62
    then "&gt;"
    else if code c == 34
    then "&quot;"
    else if code c == 39
    then "&#x27;"
    else String.◌∷◌ c String.[]

-- `html.escape`
unfoldable pub escape : String → String
unfolding escape_char
escape String.[] = String.[]
escape (String.◌∷◌ c s) = escape_char c ++ escape s

-- `sanitize_string`
unfoldable pub sanitize_string : Option String → Option String
unfolding escape strip
sanitize_string none = none
sanitize_string (some value) = some (escape (strip value))

-- `BaseEntity`
pub record BaseEntity : Type 0 where
  pub id : Option ℕ
  pub created_at : Option ℕ
  pub updated_at : Option ℕ
  pub created_by : Option ℕ
  pub updated_by : Option ℕ

-- `update_timestamps`: the `timezone` of the module datetime has no attribute `now`, which it reads
-- first.
unfoldable pub update_timestamps : BaseEntity → Outcome BaseEntity
update_timestamps e = raised attribute_error

-- `__eq__` of two entities of one class
unfoldable pub same_entity : BaseEntity → BaseEntity → Bool
same_entity a b = elim a.id [ none ↦ false | some i ↦ elim b.id [ none ↦ false | some j ↦ i == j ] ]

-- a field of an entity: missing or None, a text, or a value of another type
pub data FieldValue : Type 0 where
  missing : FieldValue
  written : String → FieldValue
  given : FieldValue

-- `value is None or (isinstance(value, str) and not value.strip())`
abbrev pub is_blank : FieldValue → Bool
is_blank missing = true
is_blank (written s) = str_eq (strip s) ""
is_blank given = false

-- `validate_required_fields`, of the names of the fields with their values
unfoldable pub validate_required_fields : List (String × FieldValue) → List String
validate_required_fields [] = []
validate_required_fields ((field, value) ∷ rest) =
    let errors = validate_required_fields rest in
    if is_blank value then (field ++ " is required") ∷ errors else errors

-- a value that is given
abbrev pub presence {ℓ} : {A : Type ℓ} → Option A → FieldValue
presence none = missing
presence (some a) = given

-- a text that may be None
abbrev pub text_field : Option String → FieldValue
text_field none = missing
text_field (some s) = written s
