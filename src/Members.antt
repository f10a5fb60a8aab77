-- ===== src/Members.antt =====
-- The use cases that change and delete users: apps/tcc/usecase/usecases/users/user_update_uc.py and
-- user_delete_uc.py. The services for notices and audits that they may have are not modelled.
pub mod Bulk
pub mod Creation
mod Tests
use Prim.Native.String.{◌++◌}
use taunggyi_city_church.Common.{
  ℕ, zero, suc, ◌+◌, Bool, true, false, not, ◌&&◌, ◌||◌, Option, none, some, List, [], ◌∷◌, String,
  str_eq, or_else, is_some, is_empty, any, length, ltb, if◌then◌else◌,
}
use taunggyi_city_church.Common.Exec.{
  Outcome, Exec, ok, raised, pure, raise, raise_if, ◌>>=◌, ◌>>◌, Exn, attribute_error, type_error,
  value_error,
}
use taunggyi_city_church.Common.Dict.{Dict, lookup, erase}
use taunggyi_city_church.Common.Int.{ℤ, pos, eqb_ℤ}
use taunggyi_city_church.UseCase.Access.{Actor}
use taunggyi_city_church.UseCase.Errors.{domain_exception, validation_exception, user_not_found}
use taunggyi_city_church.UseCase.Crud.{Identifier, number, text, other, falsy, is_falsy}

-- what is read of an entity of the repository
pub record Member : Type 0 where
  pub id : ℤ
  pub email : String
  pub is_superuser : Option Bool

-- a value of the data for an update: a text, something else, or the user that the audit context adds
pub data Value : Type 0 where
  written : String → Value
  unwritten : Value
  acting : Option Actor → Value

pub record MemberRepository (S : Type 0) : Type 0 where
  pub get_by_id : ℤ → Exec S (Option Member)
  pub update : ℤ → Dict Value → Exec S (Option Member)
  pub delete : ℤ → Option Actor → Exec S Bool

-- `int(…)` of an id
unfoldable pub to_int : (String → Option ℤ) → Identifier → Outcome ℤ
to_int read_int (number i) = ok i
to_int read_int (text s) = elim (read_int s) [ none ↦ raised value_error | some i ↦ ok i ]
to_int read_int _ = raised type_error

abbrev pub is_super : Option Bool → Bool
is_super flag = or_else flag false

-- `user.id == i`
abbrev pub is_self : Actor → ℤ → Bool
is_self u i = eqb_ℤ (pos u.id) i

-- the check of `_validate_input` and `_on_execute` that a user other than a super admin leaves those
-- alone
abbrev pub is_protected : Option Actor → Option Member → Bool
is_protected user none = false
is_protected user (some m) =
    is_super m.is_superuser && elim user [ none ↦ true | some u ↦ not (is_super u.is_superuser) ]

-- how many were deleted and how many were not
pub record Counts : Type 0 where
  pub deleted_count : ℕ
  pub failed : ℕ

abbrev pub counted : Outcome Bool → Counts → Counts
counted (ok true) c = record c { deleted_count = c.deleted_count + 1 }
counted (ok false) c = record c { failed = c.failed + 1 }
counted (raised e) c = record c { failed = c.failed + 1 }

abbrev pub super_member : Option Member → Bool
super_member none = false
super_member (some m) = is_super m.is_superuser

abbrev pub is_own : Option Actor → ℤ → Bool
is_own none i = false
is_own (some u) i = is_self u i

-- the exceptions of a bulk deletion; the last one names the id, which is left out here
abbrev pub no_ids : Exn
no_ids = validation_exception "No user IDs provided." [] none

abbrev pub too_many_ids : Exn
too_many_ids = validation_exception "Cannot delete more than 100 users at once." [] none

abbrev pub own_id : Exn
own_id = validation_exception "Cannot delete your own account in bulk operation." [] none

abbrev pub super_admin_id : Exn
super_admin_id = validation_exception "Cannot delete super admin with this ID" [] none

module _ {S : Type 0} (repository : MemberRepository S) (read_int : String → Option ℤ) where
  abbrev pub lift : {A : Type 0} → Outcome A → Exec S A
  lift r s = (r, s)

  -- `_can_update_user`
  unfoldable pub can_update_user : Option Actor → Identifier → Outcome Bool
  unfolding to_int
  can_update_user none target = ok false
  can_update_user (some u) target =
      if is_super u.is_superuser
      then ok true
      else elim (to_int read_int target) [ raised e ↦ raised e | ok i ↦ ok (is_self u i) ]

  -- `UpdateUserUseCase._validate_input`; `schema` is that of pydantic
  unfoldable pub validate_update :
      (Dict Value → Outcome (Unit {0})) → Identifier → Dict Value → Option Actor → Exec S Unit
  unfolding can_update_user validation_exception
  validate_update schema user_id update_data user = do
    raise_if (is_falsy user_id) (validation_exception "User ID is required." [] none)
    raise_if (is_empty update_data) (validation_exception "Update data is required." [] none)
    lift (schema update_data)
    allowed ← lift (can_update_user user user_id)
    raise_if (not allowed) (
        validation_exception "You can only update your own profile" []
          (some "You do not have permission to update this user."))

  -- `update_data['email'] != existing_user.email`
  abbrev pub differs : Option Value → String → Bool
  differs none email = false
  differs (some (written new)) email = not (str_eq new email)
  differs (some unwritten) email = true
  differs (some (acting u)) email = true

  -- There is no service that verifies emails, so a new email is taken out of the data.
  abbrev pub without_email : Dict Value → Member → Dict Value
  without_email update_data existing =
      if differs (lookup "email" update_data) existing.email
      then erase "email" update_data
      else update_data

  abbrev pub found_or_raise : Exn → Option Member → Exec S Member
  found_or_raise e none = raise e
  found_or_raise e (some m) = pure m

  -- `UpdateUserUseCase._on_execute`; `add_audit_context` is that of the base use case
  unfoldable pub update_user :
      (Dict Value → Option Actor → Dict Value)
      → Identifier
      → Dict Value
      → Option Actor
      → Exec S Member
  unfolding to_int user_not_found domain_exception
  update_user add_audit_context user_id update_data user = do
    i ← lift (to_int read_int user_id)
    found ← repository.get_by_id i
    existing ← found_or_raise user_not_found found
    updated ← repository.update i (add_audit_context (without_email update_data existing) user)
    found_or_raise
        (domain_exception "Failed to update user" "DOMAIN_ERROR" 400
          (some "Unable to update user profile. Please try again."))
        updated

  -- `user and not hasattr(user, 'is_superuser') or not user.is_superuser`, of a user who is not given
  -- an AttributeError
  abbrev pub lacks_super : Option Actor → Outcome Bool
  lacks_super none = raised attribute_error
  lacks_super (some u) = ok (not (is_super u.is_superuser))

  abbrev pub demand_super : Option Actor → Bool → Exec S Unit
  demand_super user false = pure tt
  demand_super user true = do
    refused ← lift (lacks_super user)
    raise_if refused (
        validation_exception "Cannot change status of super admin" []
          (some "You do not have permission to modify super admin accounts."))

  -- `ChangeUserStatusUseCase._on_execute`
  unfoldable pub change_status :
      (Dict Value → Option Actor → Dict Value) → Identifier → String → Option Actor → Exec S Member
  unfolding to_int validation_exception domain_exception
  change_status add_audit_context user_id new_status user = do
    i ← lift (to_int read_int user_id)
    raise_if (is_own user i && str_eq new_status "inactive") (
        validation_exception "Cannot deactivate your own account" []
          (some "You cannot deactivate your own account."))
    target ← repository.get_by_id i
    demand_super user (super_member target)
    updated ← repository.update i (add_audit_context (("status", written new_status) ∷ []) user)
    found_or_raise (domain_exception "Failed to change user status" "DOMAIN_ERROR" 400 none) updated

  -- `DeleteUserUseCase._validate_input`
  unfoldable pub validate_delete : Identifier → Option Actor → Exec S Unit
  unfolding to_int validation_exception
  validate_delete user_id user = do
    raise_if (is_falsy user_id) (validation_exception "User ID is required." [] none)
    i ← lift (to_int read_int user_id)
    raise_if (is_own user i) (
        validation_exception "Cannot delete your own account" []
          (some "You cannot delete your own account."))
    target ← repository.get_by_id i
    raise_if (is_protected user target) (
        validation_exception "Cannot delete super admin account" []
          (some "You do not have permission to delete super admin accounts."))

  -- `DeleteUserUseCase._on_execute`; there is no checker of dependencies
  unfoldable pub delete_user : Identifier → Option Actor → Exec S Bool
  unfolding to_int user_not_found domain_exception
  delete_user user_id user = do
    i ← lift (to_int read_int user_id)
    found ← repository.get_by_id i
    found_or_raise user_not_found found
    success ← repository.delete i user
    raise_if (not success) (
        domain_exception "Failed to delete user" "DOMAIN_ERROR" 400
          (some "Unable to delete user. Please try again."))
    pure success

  -- the first loop of `BulkDeleteUsersUseCase._on_execute`
  unfoldable pub check_each : List ℤ → Option Actor → Exec S Unit
  unfolding validation_exception
  check_each [] user = pure tt
  check_each (i ∷ rest) user = do
    target ← repository.get_by_id i
    raise_if (is_protected user target) super_admin_id
    check_each rest user

  -- the second loop, which goes on after an exception
  unfoldable pub delete_each : List ℤ → Option Actor → Counts → S → Counts × S
  delete_each [] user c s = (c, s)
  delete_each (i ∷ rest) user c s =
      let (r, s') = repository.delete i user s in delete_each rest user (counted r c) s'

  -- the guards of `BulkDeleteUsersUseCase._on_execute` that read nothing
  unfoldable pub check_ids : List ℤ → Option Actor → Exec S Unit
  unfolding validation_exception
  check_ids user_ids user = do
    raise_if (is_empty user_ids) no_ids
    raise_if (ltb 100 (length user_ids)) too_many_ids
    raise_if (any (is_own user) user_ids) own_id

  -- `BulkDeleteUsersUseCase._on_execute`; the response says the counts
  unfoldable pub bulk_delete : List ℤ → Option Actor → Exec S Counts
  unfolding check_ids check_each delete_each
  bulk_delete user_ids user = do
    check_ids user_ids user
    check_each user_ids user
    λ s.
        let (c, s') = delete_each user_ids user (record { deleted_count = 0; failed = 0 }) s in
        (ok c, s')
