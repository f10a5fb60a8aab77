-- ===== src/Entities/Events.antt =====
-- `EventEntity` and `EventRegistrationEntity` of apps/tcc/usecase/entities/events.py.
use taunggyi_city_church.Common.{
  ℕ, ◌-◌, Bool, true, false, not, Option, none, some, List, [], ◌∷◌, ◌++◌, String, ltb,
  if◌then◌else◌,
}
use taunggyi_city_church.Common.Exec.{Outcome, ok, raised, attribute_error}
use taunggyi_city_church.Common.Int.{ℤ, pos, pos_part, ltb_ℤ, leb_ℤ}
use taunggyi_city_church.Entities.{
  BaseEntity, EventStatus, sanitize_string, validate_required_fields, presence, text_field,
}
use taunggyi_city_church.Entities.Users.{note}
use taunggyi_city_church.Entities.Donations.{is_negative}

-- An entity that is made from a schema has no attribute attendee_count, which is none then.
pub record EventEntity : Type 0 where
  pub base : BaseEntity
  pub title : Option String
  pub description : Option String
  pub location : Option String
  pub start_date : Option ℕ
  pub end_date : Option ℕ
  pub event_type : Option String
  pub status : EventStatus
  pub max_attendees : Option ℤ
  pub cost : Option ℤ
  pub attendee_count : Option ℕ

unfoldable pub sanitize_event : EventEntity → EventEntity
unfolding sanitize_string
sanitize_event e = record e {
  title = sanitize_string e.title;
  description = sanitize_string e.description;
  location = sanitize_string e.location;
}

-- `available_spots`
unfoldable pub available_spots : EventEntity → Outcome (Option ℕ)
available_spots e = elim e.max_attendees [
  | none ↦ ok none
  | some maximum ↦ elim e.attendee_count [
    | none ↦ raised attribute_error
    | some attending ↦ ok (some (pos_part maximum - attending))
  ]
]

unfoldable pub is_full : EventEntity → Outcome Bool
is_full e = elim e.max_attendees [
  | none ↦ ok false
  | some maximum ↦ elim e.attendee_count [
    | none ↦ raised attribute_error
    | some attending ↦ ok (leb_ℤ maximum (pos attending))
  ]
]

abbrev pub is_upcoming : EventStatus → Bool
is_upcoming EventStatus.upcoming = true
is_upcoming _ = false

abbrev pub negated : Outcome Bool → Outcome Bool
negated (ok b) = ok (not b)
negated (raised e) = raised e

unfoldable pub can_register : EventEntity → Outcome Bool
unfolding is_full
can_register e = if is_upcoming e.status then negated (is_full e) else ok false

abbrev pub ends_early : Option ℕ → Option ℕ → Bool
ends_early none end_date = false
ends_early (some start) none = false
ends_early (some start) (some finish) = ltb finish start

abbrev pub below_one : Option ℤ → Bool
below_one none = false
below_one (some n) = ltb_ℤ n (pos 1)

-- `EventEntity.validate_for_creation`
unfoldable pub validate_event : EventEntity → List String
unfolding validate_required_fields
validate_event e =
    validate_required_fields (
      ("title", text_field e.title)
      ∷ ("start_date", presence e.start_date)
      ∷ ("event_type", text_field e.event_type)
      ∷ [])
    ++ (note (ends_early e.start_date e.end_date) "End date cannot be before start date"
        ++ (note (below_one e.max_attendees) "Max attendees must be at least 1"
            ++ note (is_negative e.cost) "Cost cannot be negative"))

-- `can_be_cancelled`: the enumeration has no member CONFIRMED, which the list of statuses names.
unfoldable pub can_be_cancelled : Outcome Bool
can_be_cancelled = raised attribute_error

-- `EventRegistrationEntity.validate_for_creation`, of the ids of the event and of the user
unfoldable pub validate_registration : Option ℕ → Option ℕ → List String
unfolding validate_required_fields
validate_registration event_id user_id =
    validate_required_fields (("event_id", presence event_id) ∷ ("user_id", presence user_id) ∷ [])
