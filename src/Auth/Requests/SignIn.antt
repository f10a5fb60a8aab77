-- ===== src/Auth/Requests/SignIn.antt =====
-- The login of apps/tcc/usecase/usecases/auth/login_uc.py as `execute` runs it over the repository of
-- apps/tcc/usecase/repo/domain_repo/user_repo.py.
use taunggyi_city_church.Common.{
  ℕ, ◌≡◌, Bool, false, Option, none, some, String, str_eq, is_empty, if◌then◌else◌,
}
use taunggyi_city_church.Common.Exec.{Exec, Exn, ok}
use taunggyi_city_church.Common.Chars.{strip}
use taunggyi_city_church.UseCase.Access.{Actor}
use taunggyi_city_church.UseCase.Base.{App, execute, internal_error, handle_exception}
use taunggyi_city_church.Auth.Accounts.{JwtService, AuthWorld, Form, field_of}
use taunggyi_city_church.Auth.Users.{UserRow, UserTable, user_repository}
use taunggyi_city_church.Auth.Passwords.{Bcrypt, verify_password}
use taunggyi_city_church.Auth.Login.{
  LoginInput, LoginResponse, EmailCheck, login, login_schema, validate_input, invalid_credentials,
}
use taunggyi_city_church.Auth.Requests.{login_use_case, email_of_form}

module _ {Database Tokens : Type 0} (table : UserTable Database) (jwt : JwtService Tokens)
    (bcrypt : Bcrypt) (email_str : String → EmailCheck) (str_id : ℕ → String)
    (has_auth_service : Bool)
    (run_transaction : Exec (AuthWorld Database Tokens LoginInput) LoginResponse
      → Exec (AuthWorld Database Tokens LoginInput) LoginResponse) where
  abbrev World : Type 0
  World = AuthWorld Database Tokens LoginInput

  abbrev pub sign_in : String → Form → Option Actor → Exec (App World) LoginResponse
  sign_in =
      execute run_transaction
        (login_use_case (user_repository table) jwt bcrypt email_str str_id has_auth_service)

  -- a form with an email and a password, of which the schema makes an input
  pub record IsComplete (form : Form) (input : LoginInput) : Type 0 where
    pub given : is_empty form ≡ false
    pub with_email : str_eq (strip (field_of "email" form)) "" ≡ false
    pub with_password : str_eq (field_of "password" form) "" ≡ false
    pub accepted :
        login_schema email_str (field_of "email" form) (field_of "password" form) ≡ ok input

  -- the world when the input was kept
  abbrev pub kept : LoginInput → World → World
  kept input w = record w { validated_input = some input }

  abbrev pub found : LoginInput → App World → Option UserRow
  found input s = table.first_by_email input.email s.world.users

  -- How a login with an input is refused, of the row with its email: nobody with that email and a
  -- password that is not theirs look the same, and an inactive account does not.
  abbrev pub refusal : LoginInput → Option UserRow → Option Exn
  refusal input none = some invalid_credentials
  refusal input (some row) =
      if row.is_active
      then (if verify_password bcrypt input.password (some row.password)
          then none
          else some invalid_credentials)
      else some internal_error

  abbrev run_login : LoginInput → Exec World LoginResponse
  run_login = login (user_repository table) jwt bcrypt email_str str_id has_auth_service

  abbrev validation : Form → Exec World Unit
  validation = validate_input (user_repository table) jwt bcrypt email_str str_id has_auth_service

  translated : Form → Exn → Exn
  translated form e = handle_exception "LoginUseCase" (email_of_form form) e
