-- ===== src/Validation/Tests.antt =====
-- Runs of the validation helpers, and their theorems at concrete inputs.
use taunggyi_city_church.Common.{ℕ, ◌≡◌, refl, true, false, ◌||◌, [], ◌∷◌}
use taunggyi_city_church.Common.Dict.{Dict, lookup, insert}
use taunggyi_city_church.Common.Exec.{value_error, ok, raised}
use taunggyi_city_church.Validation.{
  ValidationContext, new_context, has, errors_of, add_error, merge, register_schema, get_schema,
  unregister_schema, schema_exists,
}
use taunggyi_city_church.Validation.{
  has_errors, clear, get_context, set_context, get_registered_schemas,
}
use taunggyi_city_church.Validation.Merge.{IsWell, IsDict}
use taunggyi_city_church.Validation.Changes.{here, next, error, merged, Reach-IsWell, merge_unites}
use taunggyi_city_church.Validation.Registered.{register_get}

abbrev first : ValidationContext ℕ
first = add_error "email" "is required" new_context

abbrev second : ValidationContext ℕ
second = record { errors = ("email", "is too long" ∷ []) ∷ []; context = []; warnings = [] }

Reach-IsWell_example : IsWell (merge second first).errors
Reach-IsWell_example =
    Reach-IsWell (next (next here (error "email" "is required" new_context)) (merged second first))

second-IsDict : IsDict second.errors
unfolding lookup
second-IsDict = (refl, tt)

merge_unites_example :
    (has "is too long" (errors_of "email" (add_error "email" "is required" first).errors)
      ≡ (has "is too long" (errors_of "email" first.errors) || false))
    × (has "is too long" (errors_of "email" (merge second first).errors) ≡ (
        has "is too long" (errors_of "email" first.errors)
        || has "is too long" (errors_of "email" second.errors)))
merge_unites_example =
    merge_unites "email" "is required" "email" "is too long" second first refl refl second-IsDict

abbrev registry : Dict ℕ
registry = ("login", 1) ∷ []

unregistered : schema_exists "register" registry ≡ false
unfolding schema_exists lookup
unregistered = refl

registry_answers :
    (r1 r2 : Dict ℕ) × (register_schema (λ n. true) "register" 2 registry ≡ (ok tt, r1))
    × (get_schema "register" r1 ≡ ok 2)
    × (register_schema (λ n. true) "register" 3 r1 ≡ (raised value_error, r1))
    × (unregister_schema "register" r1 ≡ (true, r2))
    × (get_schema "register" r2 ≡ raised value_error)
registry_answers =
    register_get (λ n. true) "register" "register" 2 3 registry refl refl refl unregistered

collected :
    (has_errors first ≡ true)
    × (has_errors (clear first) ≡ false)
    × (get_context "k" 0 (set_context "k" 4 first) ≡ 4)
unfolding has_errors clear get_context set_context add_error lookup insert
collected = (refl, refl, refl)

names : get_registered_schemas registry ≡ "login" ∷ []
unfolding get_registered_schemas
names = refl
