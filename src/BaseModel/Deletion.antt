-- ===== src/BaseModel/Deletion.antt =====
-- Saving, soft deletion and restoring in apps/tcc/models/base/base_model.py, and who may edit.
use taunggyi_city_church.Common.{
  ℕ, ◌+◌, ◌≡◌, refl, ◌∙◌, ap, Bool, true, false, not, ◌&&◌, Option, none, some, List, [], ◌∷◌,
  arith, ◌==◌, or_else, if◌then◌else◌, Bool-cases, inl, inr,
}
use taunggyi_city_church.Common.Exec.{ok, Exec}
use taunggyi_city_church.BaseModel.{
  User, Model, Field, Instance, signed_in, id_of, has_admin, is_creator, may, can_view, can_edit,
  can_delete, save, soft_delete, restore, set_users, stamped, set_id,
}

set_users_lem :
    (o : Option User) (m : Model)
    → (m.id == 0) ≡ false
    → set_users o m ≡ record m { updated_by = id_of o m.updated_by }
set_users_lem none m h = refl
set_users_lem (some user) m h = ground (arith, h)

stamped_lem :
    (now : ℕ) (m : Model)
    → (m.id == 0) ≡ false
    → stamped now m
      ≡ record m { created_at = some (or_else m.created_at now); version = m.version + 1 }
stamped_lem now m h = ground (arith, h)

unless_not : {A : Type 0} (x y : A) (b : Bool) → b ≡ true → (if not b then x else y) ≡ y
unless_not x y true h = refl
unless_not x y false h = absurd (ground (arith, h))

and_false : (b : Bool) → (b && false) ≡ false
and_false true = refl
and_false false = refl

and_true : (b : Bool) → (b && true) ≡ b
and_true true = refl
and_true false = refl

may_same : {f g : User → Bool} (o : Option User) → ((u : User) → f u ≡ g u) → may o f ≡ may o g
may_same none h = refl
may_same (some u) h = ap (λ b. if has_admin u then true else b) (h u)

module _ {Database : Type 0} (clean : Model → Exec Database Unit)
    (write : Option (List Field) → Model → Exec Database Unit) (notify : Model → Exec Database Unit)
    (generate_snowflake_id : ℕ → Exec Database ℕ) where
  -- Django accepts and writes, the receivers do not raise, and a new id is not 0.
  pub record Works : Type 0 where
    pub cleans : (m : Model) (d : Database) → (clean m d).0 ≡ ok tt
    pub writes :
        (fields : Option (List Field)) (m : Model) (d : Database) → (write fields m d).0 ≡ ok tt
    pub notifies : (m : Model) (d : Database) → (notify m d).0 ≡ ok tt
    pub generates :
        (now : ℕ) (d : Database)
        → (id : ℕ) × ((generate_snowflake_id now d).0 ≡ ok id) × ((id == 0) ≡ false)

  module _ (works : Works) where
    -- the instance after it has an id
    set_id_lem :
        (now : ℕ) (s : Instance Database)
        → (id : ℕ) × (d : Database) × (set_id clean write notify generate_snowflake_id now s
            ≡ (ok tt, record { model = record (s.model) { id = id }; database = d }))
          × ((id == 0) ≡ false)
    set_id_lem now s = elim (Bool-cases (s.model.id == 0)) [
      | inl unset ↦
          let (id, e, set) = works.generates now s.database in
          (id, (generate_snowflake_id now s.database).1, ground (arith, unset, e), set)
      | inr set ↦ (s.model.id, s.database, ground (arith, set), set)
    ]

    -- A save that Django accepts adds one to the version, sets the user who updates if one is signed
    -- in, and keeps the user who created, also for a new instance: the id is set before the test for
    -- a new instance, so no save ever sets `created_by`, and a new instance is saved with version 2.
    pub save_lem :
        (now : ℕ) (user : Option User) (fields : Option (List Field)) (s : Instance Database)
        → (id : ℕ) × (d : Database) × (save clean write notify generate_snowflake_id now user fields
              s
            ≡ (
              ok tt,
              record {
                model = record (s.model) {
                  id = id;
                  created_at = some (or_else s.model.created_at now);
                  version = s.model.version + 1;
                  updated_by = id_of (signed_in user) s.model.updated_by;
                };
                database = d;
              },
            ))
          × ((id == 0) ≡ false)
    unfolding save
    save_lem now user fields s =
        let (id, d1, e, set) = set_id_lem now s in
        let m1 : Model = record (s.model) { id = id } in
        let d2 = (clean m1 d1).1 in
        let m2 : Model = record m1 {
          created_at = some (or_else s.model.created_at now);
          version = s.model.version + 1;
        } in
        let m3 = set_users (signed_in user) m2 in
        let d3 = (write fields m3 d2).1 in
        (
          id,
          d3,
          rw (e, works.cleans m1 d1, stamped_lem now m1 set, works.writes fields m3 d2)
              (ap (λ (m : Model). (ok tt, record { model = m; database = d3 }))
                (set_users_lem (signed_in user) m2 set)),
          set,
        )

    -- While Django accepts and writes, an active instance that is soft deleted is inactive, with the
    -- time and the user who deleted it if one is signed in; deleting it again changes nothing. Until
    -- it is restored nobody but an administrator may edit or delete it, and who may view it is as
    -- before. Restored, it is active with no time and no user of a deletion, who may edit it is who
    -- may view it, and the two saves have added two to its version.
    pub delete_restore :
        (now later : ℕ) (user restorer viewer : Option User) (s : Instance Database)
        → s.model.is_active ≡ true
        → (s1 s2 : Instance Database) × (soft_delete clean write notify generate_snowflake_id now
              user s
            ≡ (ok tt, s1))
          × (soft_delete clean write notify generate_snowflake_id later restorer s1 ≡ (ok tt, s1))
          × ((s1.model.is_active ≡ false)
              × (s1.model.deleted_at ≡ some now)
              × (s1.model.deleted_by ≡ id_of (signed_in user) s.model.deleted_by))
          × ((can_edit viewer s1.model ≡ may (signed_in viewer) (λ u. false))
              × (can_delete viewer s1.model ≡ may (signed_in viewer) (λ u. false))
              × (can_view viewer s1.model ≡ can_view viewer s.model))
          × (restore clean write notify generate_snowflake_id later restorer s1 ≡ (ok tt, s2))
          × ((s2.model.is_active ≡ true)
              × (s2.model.deleted_at ≡ none)
              × (s2.model.deleted_by ≡ none)
              × (s2.model.version ≡ s.model.version + 2))
          × (can_edit viewer s2.model ≡ can_view viewer s.model)
    unfolding soft_delete restore can_view can_edit can_delete
    delete_restore now later user restorer viewer s active =
        let s0 : Instance Database = record s {
          model = record (s.model) {
            is_active = false;
            deleted_at = some now;
            deleted_by = id_of (signed_in user) s.model.deleted_by;
          };
        } in
        let (id1, d1, saved, set1) =
          save_lem now none (some (Field.is_active ∷ Field.deleted_at ∷ Field.deleted_by ∷ []))
            s0 in
        let s1 : Instance Database = record {
          model = record (s0.model) {
            id = id1;
            created_at = some (or_else s.model.created_at now);
            version = s.model.version + 1;
          };
          database = d1;
        } in
        let r0 : Instance Database = record s1 {
          model = record (s1.model) {
            is_active = true;
            deleted_at = none;
            deleted_by = none;
            updated_by = id_of (signed_in restorer) s.model.updated_by;
          };
        } in
        let (id2, d2, restored, set2) =
          save_lem later none
            (some (Field.is_active ∷ Field.deleted_at ∷ Field.deleted_by ∷ Field.updated_by ∷ []))
            r0 in
        let m2 : Model = record (r0.model) { id = id2; version = s.model.version + 1 + 1 } in
        (
          s1,
          record { model = m2; database = (notify m2 d2).1 },
          unless_not _ _ s.model.is_active active ∙ saved,
          refl,
          (refl, refl, refl),
          (
            may_same (signed_in viewer) (λ u. and_false (is_creator u s.model)),
            may_same (signed_in viewer) (λ u. and_false (is_creator u s.model)),
            refl,
          ),
          rw (restored, works.notifies m2 d2) refl,
          (refl, refl, refl, omega arith),
          may_same (signed_in viewer) (λ u. and_true (is_creator u s.model)),
        )
