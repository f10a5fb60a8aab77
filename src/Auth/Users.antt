-- ===== src/Auth/Users.antt =====
-- `UserRepository` of apps/tcc/usecase/repo/domain_repo/user_repo.py, as far as the authentication
-- use cases call it, over a database that answers. Its decorators for caching, retries and errors of
-- the database are not modelled.
use taunggyi_city_church.Common.{ℕ, Bool, Option, none, some, String, if◌then◌else◌}
use taunggyi_city_church.Common.Exec.{ok}
use taunggyi_city_church.Auth.Accounts.{Account, UserRepository}

-- what the entity takes from a row of the table of users, and the password, which it does not
pub record UserRow : Type 0 where
  pub id : ℕ
  pub email : String
  pub name : String
  pub password : String
  pub role : String
  pub status : String
  pub is_active : Bool

-- `objects.filter(id=…).first()` and `objects.filter(email__iexact=…).first()`
pub record UserTable (Database : Type 0) : Type 0 where
  pub first_by_id : ℕ → Database → Option UserRow
  pub first_by_email : String → Database → Option UserRow

-- `UserEntity.from_model`: an entity has the attribute password_hash, which is None, and none of roles,
-- is_locked, lock_reason, failed_login_attempts, login_count, password_history and
-- requires_password_change.
unfoldable pub from_model : UserRow → Account
from_model r = record {
  id = r.id;
  email = r.email;
  name = r.name;
  password_hash = none;
  password_history = none;
  role = some r.role;
  roles = none;
  status = some r.status;
  is_active = some r.is_active;
  is_locked = none;
  lock_reason = none;
  failed_login_attempts = none;
  login_count = none;
  requires_password_change = none;
}

-- `get_by_email` of a row that was found
unfoldable pub to_account : Bool → UserRow → Account
unfolding from_model
to_account include_password_hash r =
    if include_password_hash
    then record (from_model r) { password_hash = some r.password }
    else from_model r

-- `update` passes its arguments on to the abstract method of BaseRepository, whose body is `pass`.
unfoldable pub user_repository : {Database : Type 0} → UserTable Database → UserRepository Database
unfolding to_account from_model
user_repository table = record {
  get_by_id = λ i db.
      (ok (elim (table.first_by_id i db) [ none ↦ none | some r ↦ some (from_model r) ]), db);
  get_by_email = λ email include_password_hash db. (
    ok (elim (table.first_by_email email db) [
      | none ↦ none
      | some r ↦ some (to_account include_password_hash r)
    ]),
    db,
  );
  update = λ i changes db. (ok none, db);
}
