-- ===== src/Entities/Users.antt =====
-- `UserEntity` of apps/tcc/usecase/entities/users_entity.py: its rules, checks and cleaning.
use taunggyi_city_church.Common.{
  ℕ, Bool, true, false, not, ◌&&◌, Option, none, some, List, [], ◌∷◌, ◌++◌, String, str_eq, or_else,
  length, ltb, is_empty, if◌then◌else◌,
}
use taunggyi_city_church.Common.Exec.{Outcome, ok, raised}
use taunggyi_city_church.Common.Chars.{strip, codes, join}
use taunggyi_city_church.UseCase.Errors.{validation_exception}
use taunggyi_city_church.Entities.{BaseEntity, UserRole, UserStatus, update_timestamps, escape}

pub record UserEntity : Type 0 where
  pub base : BaseEntity
  pub name : String
  pub email : String
  pub phone_number : Option String
  pub testimony : Option String
  pub date_of_birth : Option ℕ
  pub role : UserRole
  pub status : UserStatus
  pub is_active : Bool

unfoldable pub can_manage_users : UserEntity → Bool
can_manage_users u = elim u.role [ UserRole.super_admin ↦ true | UserRole.staff ↦ true | _ ↦ false ]

unfoldable pub can_manage_events : UserEntity → Bool
can_manage_events u = elim u.role [
  | UserRole.super_admin ↦ true
  | UserRole.staff ↦ true
  | UserRole.ministry_leader ↦ true
  | _ ↦ false
]

abbrev pub is_active_status : UserStatus → Bool
is_active_status UserStatus.active = true
is_active_status _ = false

unfoldable pub can_join_events : UserEntity → Bool
can_join_events u = u.is_active && is_active_status u.status

unfoldable pub is_member : UserEntity → Bool
is_member u = elim u.role [ UserRole.visitor ↦ false | _ ↦ true ]

pub record UserPermissions : Type 0 where
  pub manage_users : Bool
  pub manage_events : Bool
  pub join_events : Bool
  pub is_member : Bool

unfoldable pub get_permissions : UserEntity → UserPermissions
unfolding can_manage_users can_manage_events can_join_events is_member
get_permissions u = record {
  manage_users = can_manage_users u;
  manage_events = can_manage_events u;
  join_events = can_join_events u;
  is_member = is_member u;
}

abbrev pub note : Bool → String → List String
note true text = text ∷ []
note false text = []

-- the error of the email, by the pattern of `is_valid_email`, a call of the module re
abbrev pub email_errors : (String → Bool) → String → List String
email_errors matches email =
    if str_eq email ""
    then "Email is required" ∷ []
    else note (not (matches email)) "Invalid email format"

abbrev pub in_future : ℕ → Option ℕ → Bool
in_future today none = false
in_future today (some date) = ltb today date

-- the list `errors` of `validate_and_raise`
unfoldable pub entity_errors : (String → Bool) → ℕ → UserEntity → List String
unfolding strip
entity_errors matches today u =
    note (ltb (length (codes (strip u.name))) 2) "Name must be at least 2 characters"
    ++ (email_errors matches u.email
        ++ note (in_future today u.date_of_birth) "Date of birth cannot be in the future")

unfoldable pub validate_and_raise : (String → Bool) → ℕ → UserEntity → Outcome (Unit {0})
unfolding entity_errors validation_exception join
validate_and_raise matches today u =
    let errors = entity_errors matches today u in
    if is_empty errors then ok tt else raised (validation_exception (join "; " errors) [] none)

-- `sanitize_string(x) if x else …` of a text and of one that may be None
abbrev pub clean : String → String
clean s = if str_eq s "" then "" else escape (strip s)

-- `sanitize_inputs`; `lower` is str.lower
unfoldable pub sanitize_inputs : (String → String) → UserEntity → UserEntity
unfolding strip escape
sanitize_inputs lower u = record u {
  name = clean u.name;
  email = if str_eq u.email "" then "" else lower (escape (strip u.email));
  phone_number = elim u.phone_number [
    | none ↦ none
    | some s ↦ if str_eq s "" then none else some (escape (strip s))
  ];
  testimony = some (clean (or_else u.testimony ""));
}

abbrev pub with_base : UserEntity → Outcome BaseEntity → Outcome UserEntity
with_base u (ok base) = ok (record u { base = base })
with_base u (raised e) = raised e

-- `prepare_for_persistence`, with the entity as it is left
unfoldable pub prepare_for_persistence :
    (String → String) → UserEntity → Outcome UserEntity × UserEntity
unfolding sanitize_inputs update_timestamps
prepare_for_persistence lower u =
    let cleaned = sanitize_inputs lower u in
    (with_base cleaned (update_timestamps cleaned.base), cleaned)
