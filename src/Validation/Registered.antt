-- ===== src/Validation/Registered.antt =====
-- The registry of apps/core/core_validators/registry.py.
use taunggyi_city_church.Common.{
  ◌≡◌, refl, ap, ◌∙◌, Bool, true, false, Option, none, some, String, str_eq, str_eq_refl,
  if◌then◌else◌,
}
use taunggyi_city_church.Common.Dict.{Dict, lookup, insert, erase, lookup-insert, lookup-erase}
use taunggyi_city_church.Common.Exec.{value_error, ok, raised}
use taunggyi_city_church.Validation.{
  register_schema, get_schema, unregister_schema, schema_exists, found_schema,
}

found_if :
    {Schema : Type 0} (b : Bool) (schema : Schema) (o : Option Schema)
    → found_schema (if b then some schema else o) ≡ (if b then ok schema else found_schema o)
found_if true schema o = refl
found_if false schema o = refl

found_unless :
    {Schema : Type 0} (b : Bool) (schema : Schema) (o : Option Schema)
    → found_schema (if b then none else if b then some schema else o)
      ≡ (if b then raised value_error else found_schema o)
found_unless true schema o = refl
found_unless false schema o = refl

-- A schema that is a model registers under a new name that is not empty; then it is found, a second
-- one under the name is refused with a ValueError, and every other name answers as before. When it is
-- unregistered the name is free again: it is not found, and every other name answers as before.
pub register_get :
    {Schema : Type 0} (is_model : Schema → Bool) (name other : String) (schema second : Schema)
    (registry : Dict Schema)
    → str_eq name "" ≡ false
    → is_model schema ≡ true
    → is_model second ≡ true
    → schema_exists name registry ≡ false
    → (r1 r2 : Dict Schema) × (register_schema is_model name schema registry ≡ (ok tt, r1))
      × (get_schema other r1 ≡ (if str_eq name other then ok schema else get_schema other registry))
      × (register_schema is_model name second r1 ≡ (raised value_error, r1))
      × (unregister_schema name r1 ≡ (true, r2))
      × (get_schema other r2
          ≡ (if str_eq name other then raised value_error else get_schema other registry))
unfolding register_schema get_schema unregister_schema schema_exists
register_get {Schema = Schema} is_model name other schema second registry named model model2 free =
    let r1 = insert name schema registry in
    let r2 = erase name r1 in
    let read = lookup-insert name other schema registry in
    let own = lookup-insert name name schema registry in
    let gone = lookup-erase name other r1 in
    (
      r1,
      r2,
      rw (named, model, free) refl,
      ap found_schema read ∙ found_if (str_eq name other) schema (lookup other registry),
      rw (named, model2, own, str_eq_refl name) refl,
      rw (own, str_eq_refl name) refl,
      ap found_schema
            (gone ∙ ap (λ (o : Option Schema). if str_eq name other then none else o) read)
          ∙ found_unless (str_eq name other) schema (lookup other registry),
    )
