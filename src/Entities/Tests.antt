-- ===== src/Entities/Tests.antt =====
-- Cleaning and checks of the entities of apps/tcc/usecase/entities.
use taunggyi_city_church.Common.{◌≡◌, refl, true, false, none, some, [], ◌∷◌, String}
use taunggyi_city_church.Common.Exec.{ok, raised, attribute_error}
use taunggyi_city_church.Common.Chars.{strip}
use taunggyi_city_church.Common.Int.{pos}
use taunggyi_city_church.Entities.{BaseEntity, UserRole, UserStatus, EventStatus, sanitize_string}
use taunggyi_city_church.Entities.Markup.{is_free, is_plain, sanitize_string_lem}
use taunggyi_city_church.Entities.Users.{
  UserEntity, can_manage_users, can_join_events, prepare_for_persistence, entity_errors,
}
use taunggyi_city_church.Entities.Events.{EventEntity, can_register, is_full, validate_event}

sanitize_string_lem_example :
    (s : String) × (sanitize_string (some " <b>Ko & Ma</b>") ≡ some s)
    × (is_free s ≡ true)
    × (is_plain (strip " <b>Ko & Ma</b>") ≡ true → s ≡ strip " <b>Ko & Ma</b>")
sanitize_string_lem_example = sanitize_string_lem " <b>Ko & Ma</b>"

cleaned : sanitize_string (some " <b>Ko & Ma</b>") ≡ some "&lt;b&gt;Ko &amp; Ma&lt;/b&gt;"
unfolding sanitize_string
cleaned = refl

-- A text that was cleaned before is changed by another cleaning.
cleaned_twice : sanitize_string (some "Ko &amp; Ma") ≡ some "Ko &amp;amp; Ma"
unfolding sanitize_string
cleaned_twice = refl

abbrev new_base : BaseEntity
new_base = record {
  id = none;
  created_at = none;
  updated_at = none;
  created_by = none;
  updated_by = none;
}

abbrev ko : UserEntity
ko = record {
  base = new_base;
  name = " K";
  email = "";
  phone_number = none;
  testimony = none;
  date_of_birth = some 9;
  role = UserRole.staff;
  status = UserStatus.active;
  is_active = true;
}

staff_rules : (can_manage_users ko ≡ true) × (can_join_events ko ≡ true)
unfolding can_manage_users can_join_events
staff_rules = (refl, refl)

errors_of_ko :
    entity_errors (λ s. true) 8 ko
    ≡ "Name must be at least 2 characters" ∷ "Email is required"
      ∷ "Date of birth cannot be in the future" ∷ []
unfolding entity_errors
errors_of_ko = refl

never_prepared : (prepare_for_persistence (λ s. s) ko).0 ≡ raised attribute_error
unfolding prepare_for_persistence
never_prepared = refl

abbrev picnic : EventEntity
picnic = record {
  base = new_base;
  title = some "Picnic";
  description = none;
  location = none;
  start_date = some 5;
  end_date = some 4;
  event_type = none;
  status = EventStatus.upcoming;
  max_attendees = some (pos 2);
  cost = none;
  attendee_count = some 2;
}

full_picnic : (is_full picnic ≡ ok true) × (can_register picnic ≡ ok false)
unfolding is_full can_register
full_picnic = (refl, refl)

errors_of_picnic :
    validate_event picnic ≡ "event_type is required" ∷ "End date cannot be before start date" ∷ []
unfolding validate_event strip
errors_of_picnic = refl
