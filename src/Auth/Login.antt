-- ===== src/Auth/Login.antt =====
-- `LoginUseCase` of apps/tcc/usecase/usecases/auth/login_uc.py.
pub mod Unlocked
use Prim.Native.String.{◌++◌}
use taunggyi_city_church.Common.{
  ℕ, ◌+◌, Bool, true, false, not, Option, none, some, List, [], ◌∷◌, String, str_eq, or_else,
  is_empty, is_some, leb, if◌then◌else◌,
}
use taunggyi_city_church.Common.Exec.{
  Outcome, Exec, ok, raised, pure, raise, raise_if, gets, catch, ◌>>=◌, ◌>>◌, Exn, attribute_error,
  validation_error,
}
use taunggyi_city_church.Common.Dict.{Dict, lookup}
use taunggyi_city_church.Common.Chars.{strip}
use taunggyi_city_church.UseCase.Errors.{invalid_auth, account_locked, account_inactive}
use taunggyi_city_church.Auth.Accounts.{
  Account, Change, set_is_locked, set_lock_reason, set_failed_login_attempts, set_login_count,
  set_last_login, UserRepository, JwtService, AuthWorld, Task, audit_login, on_users, on_tokens,
  create_task, roles_of, Form, field_of, collect_errors,
}
use taunggyi_city_church.Auth.Passwords.{Bcrypt, verify_password}

pub record LoginInput : Type 0 where
  pub email : String
  pub password : String

-- What pydantic's EmailStr says of a text: the normalized address or a message.
pub data EmailCheck : Type 0 where
  valid : String → EmailCheck
  invalid : String → EmailCheck

-- `LoginResponseSchema`, without its times
pub record LoginResponse : Type 0 where
  pub id : ℕ
  pub email : String
  pub name : String
  pub role : String
  pub status : String
  pub is_active : Bool
  pub access_token : String
  pub refresh_token : String

abbrev pub email_errors : EmailCheck → List (String × String)
email_errors (valid email) = []
email_errors (invalid message) = ("email", message) ∷ []

abbrev pub password_errors : String → List (String × String)
password_errors password =
    if str_eq password ""
    then ("password", "Value error, Password is required to login") ∷ []
    else []

abbrev pub normalized : EmailCheck → String
normalized (valid email) = email
normalized (invalid message) = ""

-- `LoginInputSchema`, of an email that is not blank: both fields are stripped.
unfoldable pub login_schema : (String → EmailCheck) → String → String → Outcome LoginInput
unfolding strip
login_schema email_str email password =
    let checked = email_str (strip email) in
    elim (email_errors checked) [
      | [] ↦ elim (password_errors (strip password)) [
        | [] ↦ ok (record { email = normalized checked; password = strip password })
        | (e ∷ rest) ↦ raised (validation_error (e ∷ rest))
      ]
      | (e ∷ rest) ↦ raised (validation_error (e ∷ password_errors (strip password)))
    ]

abbrev pub invalid_credentials : Exn
invalid_credentials =
    invalid_auth (("credentials", "Invalid email or password" ∷ []) ∷ [])
      "Invalid email or password."

-- `getattr(user, "failed_login_attempts", 0)`, also of None
abbrev pub attempts_of : Option Account → ℕ
attempts_of none = 0
attempts_of (some a) = or_else a.failed_login_attempts 0

-- the changes after a failure, of the attempts before it
abbrev pub failure_changes : ℕ → List Change
failure_changes attempts =
    if leb 5 (attempts + 1)
    then set_is_locked true
      ∷ set_lock_reason (some "Too many failed attempts")
      ∷ set_failed_login_attempts (attempts + 1)
      ∷ []
    else set_failed_login_attempts (attempts + 1) ∷ []

-- An entity has a name always, and none of the attributes first_name and last_name, whose places
-- empty texts take.
abbrev pub display_name : Account → String
display_name a = if str_eq a.name "" then a.email else a.name

abbrev pub respond : Account → List String → String → String → LoginResponse
respond a roles access_token refresh_token = record {
  id = a.id;
  email = a.email;
  name = display_name a;
  role = elim roles [ [] ↦ "member" | (r ∷ rest) ↦ r ];
  status = or_else a.status "active";
  is_active = or_else a.is_active true;
  access_token = access_token;
  refresh_token = refresh_token;
}

-- `str_id` is str(…) of an id, and `has_auth_service` says whether there is one.
module _ {Users Tokens : Type 0} (users : UserRepository Users) (jwt : JwtService Tokens)
    (bcrypt : Bcrypt) (email_str : String → EmailCheck) (str_id : ℕ → String)
    (has_auth_service : Bool) where
  abbrev pub World : Type 0
  World = AuthWorld Users Tokens LoginInput

  -- `except ValidationError as e`
  abbrev pub reject : Exn → Exec World Unit
  reject (validation_error errors) =
      raise (invalid_auth (collect_errors errors []) "Invalid login data.")
  reject e = raise e

  abbrev pub keep_input : Outcome LoginInput → Exec World Unit
  keep_input (ok input) w = (ok tt, record w { validated_input = some input })
  keep_input (raised e) w = (raised e, w)

  -- `_validate_input`
  unfoldable pub validate_input : Form → Exec World Unit
  unfolding invalid_auth collect_errors login_schema
  validate_input form = do
    raise_if (is_empty form) (
        invalid_auth (("general", "Login data is required" ∷ []) ∷ [])
          "Please provide email and password.")
    raise_if (str_eq (strip (field_of "email" form)) "")
        (invalid_auth (("email", "Email is required" ∷ []) ∷ []) "Email is required.")
    raise_if (str_eq (field_of "password" form) "")
        (invalid_auth (("password", "Password is required" ∷ []) ∷ []) "Password is required.")
    catch (keep_input (login_schema email_str (field_of "email" form) (field_of "password" form)))
        reject

  -- `_track_failed_login`
  unfoldable pub track_failed_login : ℕ → Exec Users (Option Account)
  track_failed_login user_id = do
    user ← users.get_by_id user_id
    users.update user_id (failure_changes (attempts_of user))

  -- `_reset_failed_logins`
  unfoldable pub reset_failed_logins : ℕ → Exec Users (Option Account)
  reset_failed_logins user_id =
      users.update user_id
        (set_failed_login_attempts 0 ∷ set_is_locked false ∷ set_lock_reason none ∷ [])

  -- `user_entity.lock_reason` is read for the exception.
  abbrev pub locked_error : Account → Exn
  locked_error a = elim a.lock_reason [
    | none ↦ attribute_error
    | some reason ↦ account_locked (str_id a.id) (some "Your account is locked.")
  ]

  -- the entity of an account that was found
  abbrev pub found_or_raise : Option Account → Exec World Account
  found_or_raise none = raise invalid_credentials
  found_or_raise (some a) = pure a

  abbrev pub demand_password : Bool → ℕ → Exec World Unit
  demand_password true id = pure tt
  demand_password false id = do on_users (track_failed_login id); raise invalid_credentials

  abbrev pub audit : ℕ → Exec World Unit
  audit id = if has_auth_service then create_task (audit_login id "LOGIN") else pure tt

  -- the part of `_on_execute` after the password was verified
  unfoldable pub complete_login : Account → Exec World LoginResponse
  unfolding reset_failed_logins roles_of
  complete_login a = do
    on_users (reset_failed_logins a.id)
    let roles = roles_of a
    access_token ← on_tokens (jwt.generate_access_token a.id a.email roles)
    refresh_token ← on_tokens (jwt.generate_refresh_token a.id a.email)
    on_users (
        users.update a.id (
          set_last_login
          ∷ set_login_count (or_else a.login_count 0 + 1)
          ∷ set_failed_login_attempts 0
          ∷ []))
    audit a.id
    pure (respond a roles access_token refresh_token)

  -- `_on_execute`, of the input that was validated
  unfoldable pub login : LoginInput → Exec World LoginResponse
  unfolding track_failed_login complete_login invalid_auth account_locked account_inactive
      verify_password
  login input = do
    found ← on_users (users.get_by_email input.email true)
    a ← found_or_raise found
    raise_if (or_else a.is_locked false) (locked_error a)
    raise_if (not (or_else a.is_active true)) (account_inactive a.email)
    demand_password (verify_password bcrypt input.password a.password_hash) a.id
    complete_login a

  abbrev pub the_input : Option LoginInput → Exec World LoginInput
  the_input none = raise attribute_error
  the_input (some input) = pure input

  unfoldable pub on_execute : Exec World LoginResponse
  unfolding login
  on_execute = do
    validated ← gets (λ w. w.validated_input)
    input ← the_input validated
    login input
