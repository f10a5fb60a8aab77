-- ===== src/Members/Creation.antt =====
-- `CreateUserUseCase` and `CreateAdminUserUseCase` of
-- apps/tcc/usecase/usecases/users/user_create_uc.py. The schema of pydantic is a parameter, and so is
-- what it says of the fields that are only passed on.
pub mod Answers
mod Tests
use Prim.Native.String.{◌++◌}
use taunggyi_city_church.Common.{
  ℕ, Bool, true, false, not, Option, none, some, List, [], ◌∷◌, String, str_eq, is_some, any,
  length, ltb, if◌then◌else◌,
}
use taunggyi_city_church.Common.Exec.{
  Outcome, Exec, ok, raised, Exn, AppError, pure, raise, raise_if, catch, ◌>>=◌, ◌>>◌, domain,
  validation_error,
}
use taunggyi_city_church.Common.Chars.{codes}
use taunggyi_city_church.UseCase.Access.{Actor, default_configuration}
use taunggyi_city_church.UseCase.Base.{UseCase}
use taunggyi_city_church.UseCase.Errors.{validation_exception, user_already_exists}
use taunggyi_city_church.Auth.Accounts.{collect_errors}
use taunggyi_city_church.Auth.Passwords.{Bcrypt, hash_password}

-- `UserCreateInputSchema`: what the use case reads, and the fields that it passes on
pub record CreateInput (Rest : Type 0) : Type 0 where
  pub name : String
  pub email : String
  pub password : String
  pub rest : Rest

-- `user_data`; `is_active` is always True.
pub record UserData (Rest : Type 0) : Type 0 where
  pub name : String
  pub email : String
  pub password : String
  pub rest : Rest
  pub is_active : Bool

pub record Created : Type 0 where
  pub id : ℕ
  pub email : String
  pub name : String

-- `UserRepository` as the use case calls it
pub record CreateRepository (S Rest : Type 0) : Type 0 where
  pub get_by_email : String → Exec S (Option Created)
  pub create : UserData Rest → Exec S (Option Created)

-- the database, and the welcome emails that were given to `asyncio.create_task`, the latest first
pub record CreateWorld (S : Type 0) : Type 0 where
  pub users : S
  pub welcome : List (String × String)

abbrev pub refused : String → Option String → Exn
refused message user_message = validation_exception message [] user_message

-- the message of the exception for the errors of the schema
abbrev pub invalid_message : List (String × String) → String
invalid_message [] = "Invalid user data: Unknown error"
invalid_message ((field, msg) ∷ rest) = "Invalid user data: " ++ msg

-- `except ValidationError as e`
abbrev pub reject : {S : Type 0} → Exn → Exec S Unit
reject (validation_error errors) =
    raise (validation_exception (invalid_message errors) (collect_errors errors []) none)
reject e = raise e

-- `_validate_password`
unfoldable pub validate_password : {S : Type 0} → (ℕ → Bool) → (ℕ → Bool) → String → Exec S Unit
unfolding validation_exception
validate_password is_digit is_alpha password = do
  raise_if (ltb (length (codes password)) 8) (refused "Password must be at least 8 characters" none)
  raise_if (not (any is_digit (codes password)))
      (refused "Password must contain at least one digit" none)
  raise_if (not (any is_alpha (codes password)))
      (refused "Password must contain at least one letter" none)

-- whether an exception is a UserAlreadyExistsException
abbrev pub is_already_exists : Exn → Bool
is_already_exists (domain e) = str_eq e.class_name "UserAlreadyExistsException"
is_already_exists _ = false

abbrev pub creation_error : Exn → Exn
creation_error e =
    if is_already_exists e
    then e
    else refused "Failed to create user" (some "Unable to create user accoun. Please try again")

module _ {S Rest Raw : Type 0} (schema : Raw → Outcome (CreateInput Rest))
    (repository : CreateRepository S Rest) (bcrypt : Bcrypt) (draw : ℕ)
    (is_digit is_alpha : ℕ → Bool) where
  abbrev pub on_users : {A : Type 0} → Exec S A → Exec (CreateWorld S) A
  on_users f w = let (r, u) = f w.users in (r, record w { users = u })

  abbrev pub lift : {A : Type 0} → Outcome A → Exec (CreateWorld S) A
  lift r w = (r, w)

  -- the body of the `try` of `_validate_input`
  unfoldable pub check_input : Raw → Exec (CreateWorld S) Unit
  unfolding validate_password user_already_exists
  check_input raw = do
    input ← lift (schema raw)
    existing ← on_users (repository.get_by_email input.email)
    raise_if (is_some existing) (user_already_exists (some input.email))
    validate_password is_digit is_alpha input.password

  -- `_validate_input`
  unfoldable pub validate_input : Raw → Exec (CreateWorld S) Unit
  unfolding check_input validation_exception
  validate_input raw = catch (check_input raw) reject

  abbrev pub user_data : CreateInput Rest → String → UserData Rest
  user_data input hashed = record {
    name = input.name;
    email = input.email;
    password = hashed;
    rest = input.rest;
    is_active = true;
  }

  abbrev pub found_or_raise : Option Created → Exec (CreateWorld S) Created
  found_or_raise none = raise (
      refused "Failed to create user - repository returned None"
        (some "Unable to create user account. Please try again."))
  found_or_raise (some u) = pure u

  abbrev pub send_welcome : Created → Exec (CreateWorld S) Unit
  send_welcome u w = (ok tt, record w { welcome = (u.email, u.name) ∷ w.welcome })

  -- `_on_execute`
  unfoldable pub create_user : Raw → Exec (CreateWorld S) Created
  unfolding validation_exception hash_password
  create_user raw = do
    input ← lift (schema raw)
    hashed ← catch (lift (hash_password bcrypt draw input.password)) (λ e. raise (
        refused "Failed to process password"
          (some "Unable to process password. Please try again.")))
    made ←
        catch (on_users (repository.create (user_data input hashed)))
          (λ e. raise (creation_error e))
    u ← found_or_raise made
    send_welcome u
    pure u

  -- The use case, with its configuration. Its `_validate_output` is that of the base use case, which
  -- does nothing; `email_of` is `input_data.get('email')`.
  abbrev pub create_use_case : (Raw → Option String) → UseCase (CreateWorld S) Raw Created
  create_use_case email_of = record {
    class_name = "CreateUserUseCase";
    config = record default_configuration { require_authentication = false };
    email_of = email_of;
    validate_input = λ raw ctx. validate_input raw;
    on_execute = λ raw user ctx. create_user raw;
    validate_output = λ out ctx. pure tt;
  }

  abbrev pub lacks_super : Option Actor → Bool
  lacks_super none = true
  lacks_super (some u) = not (is_some u.is_superuser)

  -- `CreateAdminUserUseCase._validate_input`
  unfoldable pub validate_admin : Raw → Option Actor → Exec (CreateWorld S) Unit
  unfolding validate_input validation_exception
  validate_admin raw user = do
    validate_input raw
    raise_if (lacks_super user) (
        refused "Unauthorized to create admin users"
          (some "You do not have permission to create admin users."))
