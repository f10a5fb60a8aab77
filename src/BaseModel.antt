-- ===== src/BaseModel.antt =====
-- apps/tcc/models/base/base_model.py: `BaseModel`, its saving, soft deletion and permissions. Django's
-- `full_clean` and the `save` of its own class, the generator of ids and the receivers of the signal
-- are parameters. The printing, cloning and audit helpers are not modelled.
pub mod Deletion
mod Tests
use taunggyi_city_church.Common.{
  ℕ, suc, ◌+◌, Bool, true, false, not, ◌&&◌, Option, none, some, List, [], ◌∷◌, String, ◌==◌,
  or_else, is_some, if◌then◌else◌,
}
use taunggyi_city_church.Common.Dict.{Dict, lookup, insert}
use taunggyi_city_church.Common.Exec.{Outcome, ok, raised, Exec, pure, ◌>>=◌, ◌>>◌, modify}

-- `is_admin` is none where the user has no such attribute
pub record User : Type 0 where
  pub id : ℕ
  pub is_authenticated : Bool
  pub is_admin : Option Bool

-- An id of 0 is one that is not set. References are to users by their ids.
pub record Model : Type 0 where
  pub id : ℕ
  pub created_at : Option ℕ
  pub created_by : Option ℕ
  pub updated_by : Option ℕ
  pub is_active : Bool
  pub meta_info : Dict String
  pub version : ℕ
  pub deleted_at : Option ℕ
  pub deleted_by : Option ℕ

pub data Field : Type 0 where
  is_active deleted_at deleted_by updated_by meta_info : Field

-- `user and user.is_authenticated`
abbrev pub signed_in : Option User → Option User
signed_in none = none
signed_in (some user) = if user.is_authenticated then some user else none

abbrev pub id_of : Option User → Option ℕ → Option ℕ
id_of none other = other
id_of (some user) other = some user.id

-- `hasattr(user, 'is_admin') and user.is_admin`
abbrev pub has_admin : User → Bool
has_admin user = or_else user.is_admin false

abbrev pub is_creator : User → Model → Bool
is_creator user m = elim m.created_by [ none ↦ false | some id ↦ id == user.id ]

-- the tests that `can_view`, `can_edit` and `can_delete` share
abbrev pub may : Option User → (User → Bool) → Bool
may none rest = false
may (some user) rest = if has_admin user then true else rest user

unfoldable pub can_view : Option User → Model → Bool
can_view user m = may (signed_in user) (λ u. is_creator u m)

unfoldable pub can_edit : Option User → Model → Bool
can_edit user m = may (signed_in user) (λ u. is_creator u m && m.is_active)

unfoldable pub can_delete : Option User → Model → Bool
can_delete user m = may (signed_in user) (λ u. is_creator u m && m.is_active)

unfoldable pub get_meta_value : String → Option String → Model → Option String
get_meta_value key default m = elim (lookup key m.meta_info) [ none ↦ default | some v ↦ some v ]

-- `if user …: if not self.pk: self.created_by = user` and `self.updated_by = user`
abbrev pub set_users : Option User → Model → Model
set_users none m = m
set_users (some user) m =
    let m1 : Model = if m.id == 0 then record m { created_by = some user.id } else m in
    record m1 { updated_by = some user.id }

abbrev pub stamped : ℕ → Model → Model
stamped now m =
    let m1 : Model = record m { created_at = some (or_else m.created_at now) } in
    if m1.id == 0 then m1 else record m1 { version = m1.version + 1 }

-- an instance and the database
pub record Instance (Database : Type 0) : Type 0 where
  pub model : Model
  pub database : Database

-- `clean` is `full_clean`, `write` Django's own `save` of all or of some fields, and `notify` the
-- signal.
module _ {Database : Type 0} (clean : Model → Exec Database Unit)
    (write : Option (List Field) → Model → Exec Database Unit) (notify : Model → Exec Database Unit)
    (generate_snowflake_id : ℕ → Exec Database ℕ) where
  abbrev pub on_database : {A : Type 0} → (Model → Exec Database A) → Exec (Instance Database) A
  on_database f s = let (r, d) = f s.model s.database in (r, record s { database = d })

  abbrev pub change : (Model → Model) → Exec (Instance Database) Unit
  change f = modify (λ s. record s { model = f s.model })

  -- `if not self.id: self.id = generate_snowflake_id()`
  abbrev pub set_id : ℕ → Exec (Instance Database) Unit
  set_id now s =
      if s.model.id == 0
      then (on_database (λ m. generate_snowflake_id now) >>= λ id.
            change (λ m. record m { id = id }))
          s
      else (ok tt, s)

  unfoldable pub save : ℕ → Option User → Option (List Field) → Exec (Instance Database) Unit
  save now user update_fields = do
    set_id now
    on_database clean
    change (stamped now)
    change (set_users (signed_in user))
    on_database (write update_fields)

  unfoldable pub soft_delete : ℕ → Option User → Exec (Instance Database) Unit
  soft_delete now user s =
      if not s.model.is_active
      then (ok tt, s)
      else (do
        change (λ m. record m {
          is_active = false;
          deleted_at = some now;
          deleted_by = id_of (signed_in user) m.deleted_by;
        })
        save now none (some (is_active ∷ deleted_at ∷ deleted_by ∷ [])))
          s

  unfoldable pub restore : ℕ → Option User → Exec (Instance Database) Unit
  restore now user s =
      if s.model.is_active
      then (ok tt, s)
      else (do
        change (λ m. record m {
          is_active = true;
          deleted_at = none;
          deleted_by = none;
          updated_by = id_of (signed_in user) m.updated_by;
        })
        save now none (some (is_active ∷ deleted_at ∷ deleted_by ∷ updated_by ∷ []))
        on_database notify)
          s

  unfoldable pub delete : ℕ → Option User → Exec (Instance Database) Unit
  delete now user = soft_delete now user

  unfoldable pub set_meta_value : ℕ → String → String → Exec (Instance Database) Unit
  set_meta_value now key value = do
    change (λ m. record m { meta_info = insert key value m.meta_info })
    save now none (some (meta_info ∷ []))
