-- ===== src/Validation.antt =====
-- apps/core/core_validators: the context that collects errors (valdiaiton_context.py) and the registry
-- of schemas (registry.py). What kind of value a schema is, and the core schemas that are registered
-- on import, are left open.
pub mod Merge
pub mod Changes
pub mod Registered
mod Tests
use taunggyi_city_church.Common.{
  ℕ, Bool, true, false, not, ◌||◌, Option, none, some, List, [], ◌∷◌, ◌++◌, String, map, str_eq,
  or_else, is_some, if◌then◌else◌,
}
use taunggyi_city_church.Common.Dict.{Dict, lookup, insert, erase}
use taunggyi_city_church.Common.Exec.{value_error, type_error, Outcome, ok, raised, Exec}

pub record ValidationContext (V : Type 0) : Type 0 where
  pub errors : Dict (List String)
  pub context : Dict V
  pub warnings : List String

-- `message in messages`
abbrev pub has : String → List String → Bool
has message [] = false
has message (x ∷ xs) = str_eq x message || has message xs

-- `if message not in messages: messages.append(message)`
abbrev pub append_new : String → List String → List String
append_new message messages = if has message messages then messages else messages ++ message ∷ []

-- `self.errors[field].extend(error for error in errors if error not in self.errors[field])`, which
-- tests each error against the list as it grows
unfoldable pub extend_new : List String → List String → List String
extend_new [] messages = messages
extend_new (error ∷ errors) messages = extend_new errors (append_new error messages)

-- `self.errors[field]`, a new list where there is none
abbrev pub errors_of : String → Dict (List String) → List String
errors_of field errors = or_else (lookup field errors) []

abbrev is_blank : String → Bool
is_blank s = str_eq s ""

abbrev is_filled : {A : Type 0} → List A → Bool
is_filled [] = false
is_filled (x ∷ xs) = true

-- the loop of `merge` over the errors of the other
unfoldable pub merge_errors : Dict (List String) → Dict (List String) → Dict (List String)
merge_errors [] errors = errors
merge_errors ((field, messages) ∷ rest) errors =
    merge_errors rest (insert field (extend_new messages (errors_of field errors)) errors)

module _ {V : Type 0} where
  abbrev pub new_context : ValidationContext V
  new_context = record { errors = []; context = []; warnings = [] }

  unfoldable pub add_error : String → String → ValidationContext V → ValidationContext V
  add_error field message c = if is_blank field || is_blank message then c else record c {
    errors = insert field (append_new message (errors_of field c.errors)) c.errors;
  }

  unfoldable pub add_warning : String → ValidationContext V → ValidationContext V
  add_warning message c =
      if is_blank message then c else record c { warnings = append_new message c.warnings }

  unfoldable pub has_errors : ValidationContext V → Bool
  has_errors c = is_filled c.errors

  unfoldable pub has_warnings : ValidationContext V → Bool
  has_warnings c = is_filled c.warnings

  unfoldable pub set_context : String → V → ValidationContext V → ValidationContext V
  set_context key value c = record c { context = insert key value c.context }

  unfoldable pub get_context : String → V → ValidationContext V → V
  get_context key default c = or_else (lookup key c.context) default

  unfoldable pub clear : ValidationContext V → ValidationContext V
  clear c = record { errors = []; context = []; warnings = [] }

  abbrev update : Dict V → Dict V → Dict V
  update [] context = context
  update ((key, value) ∷ rest) context = update rest (insert key value context)

  abbrev pub add_warnings : List String → ValidationContext V → ValidationContext V
  add_warnings [] c = c
  add_warnings (w ∷ ws) c = add_warnings ws (add_warning w c)

  unfoldable pub merge : ValidationContext V → ValidationContext V → ValidationContext V
  merge other c =
      let c1 : ValidationContext V = record c { errors = merge_errors other.errors c.errors } in
      let c2 = add_warnings other.warnings c1 in
      record c2 { context = update other.context c2.context }

-- The registry; `is_model` is `issubclass(schema, BaseModel)`.
module _ {Schema : Type 0} (is_model : Schema → Bool) where
  unfoldable pub register_schema : String → Schema → Exec (Dict Schema) Unit
  register_schema name schema registry =
      if is_blank name
      then (raised value_error, registry)
      else if not (is_model schema)
      then (raised type_error, registry)
      else if is_some (lookup name registry)
      then (raised value_error, registry)
      else (ok tt, insert name schema registry)

module _ {Schema : Type 0} where
  abbrev pub found_schema : Option Schema → Outcome Schema
  found_schema none = raised value_error
  found_schema (some schema) = ok schema

  unfoldable pub get_schema : String → Dict Schema → Outcome Schema
  get_schema name registry = found_schema (lookup name registry)

  unfoldable pub unregister_schema : String → Dict Schema → Bool × Dict Schema
  unregister_schema name registry =
      if is_some (lookup name registry) then (true, erase name registry) else (false, registry)

  unfoldable pub get_registered_schemas : Dict Schema → List String
  get_registered_schemas registry = map (λ entry. entry.0) registry

  unfoldable pub schema_exists : String → Dict Schema → Bool
  schema_exists name registry = is_some (lookup name registry)
