-- ===== src/Auth/Requests.antt =====
-- The use cases of apps/tcc/usecase/usecases/auth as `execute` of the base use case runs them, with the
-- services that apps/tcc/usecase/dependencies/auth_dep.py gives them; the change of a password, which
-- is commented out there, with the same ones. A request is a form: its errors come from the schemas of
-- pydantic, which are parameters, with the messages that the use cases make of them.
pub mod Breaking
pub mod Failures
pub mod SignIn
use taunggyi_city_church.Common.{
  ℕ, Bool, true, false, not, ◌&&◌, Option, none, some, List, [], ◌∷◌, String, str_eq, or_else,
  is_some, is_empty, if◌then◌else◌,
}
use taunggyi_city_church.Common.Exec.{
  Outcome, Exec, ok, raised, Exn, pure, raise, raise_if, gets, catch, ◌>>=◌, ◌>>◌, attribute_error,
  validation_error,
}
use taunggyi_city_church.Common.Dict.{Dict, lookup}
use taunggyi_city_church.Common.Chars.{strip}
use taunggyi_city_church.UseCase.Access.{Actor, UseCaseConfiguration, default_configuration}
use taunggyi_city_church.UseCase.Errors.{invalid_user_input}
use taunggyi_city_church.UseCase.Base.{UseCase}
use taunggyi_city_church.Auth.Accounts.{
  Account, UserRepository, AuthWorld, JwtService, Form, field_of, collect_errors,
}
use taunggyi_city_church.Auth.Passwords.{Bcrypt, Unicode}
use taunggyi_city_church.Auth.Login.{LoginInput, LoginResponse, EmailCheck}
use taunggyi_city_church.Auth.Login
use taunggyi_city_church.Auth.Recovery.{
  ChangeInput, ResetInput, reject_missing, change_fields, reset_fields, domain_service,
  operation_context, change_password, reset_password, forgot_password,
}
use taunggyi_city_church.Auth.Session.{jwt_manager, check_refresh_form, refresh, logout}

-- the configurations, with those fields that the use cases set
abbrev pub open_configuration : UseCaseConfiguration
open_configuration = record default_configuration { require_authentication = false }

abbrev pub login_configuration : UseCaseConfiguration
login_configuration = record open_configuration { transactional = false }

module _ {Users Tokens Input : Type 0} where
  -- `self.validated_input = Schema(**data)`
  abbrev pub keep_input : Outcome Input → Exec (AuthWorld Users Tokens Input) Unit
  keep_input (ok input) w = (ok tt, record w { validated_input = some input })
  keep_input (raised e) w = (raised e, w)

  -- `self.validated_input`, of which a field is read
  abbrev pub the_input : Option Input → Exec (AuthWorld Users Tokens Input) Input
  the_input none = raise attribute_error
  the_input (some input) = pure input

  -- `except ValidationError as e`, with the message for the user that the errors lead to
  abbrev pub reject : (Dict (List String) → String) → Exn → Exec (AuthWorld Users Tokens Input) Unit
  reject message (validation_error errors) =
      raise (invalid_user_input (collect_errors errors []) (message (collect_errors errors [])))
  reject message e = raise e

  -- the `try` around the schema
  unfoldable pub validate_form :
      (Form → Outcome Input)
      → (Dict (List String) → String)
      → Form
      → Exec (AuthWorld Users Tokens Input) Unit
  unfolding collect_errors invalid_user_input
  validate_form schema message form = catch (keep_input (schema form)) (reject message)

  -- `_on_execute` up to what it does with the input
  abbrev pub with_input :
      {Out : Type 0}
      → (Input → Exec (AuthWorld Users Tokens Input) Out)
      → Exec (AuthWorld Users Tokens Input) Out
  with_input run = do
    validated ← gets (λ w. w.validated_input)
    input ← the_input validated
    run input

abbrev pub change_message : Dict (List String) → String
change_message errors = "Please check your password input."

abbrev pub reset_message : Dict (List String) → String
reset_message errors =
    if is_some (lookup "new_password" errors) && is_some (lookup "confirm_password" errors)
    then "Password and confirmation are required"
    else if is_some (lookup "token" errors)
    then "Reset token is required"
    else "Please check your input and try again."

-- the first error of the email
abbrev pub forgot_message : Dict (List String) → String
forgot_message errors = elim (or_else (lookup "email" errors) []) [
  | [] ↦ "Please provide a valid email address."
  | (msg ∷ rest) ↦ msg
]

abbrev pub logout_message : Dict (List String) → String
logout_message errors =
    if is_some (lookup "refresh_token" errors)
    then "Invalid refresh token format"
    else "Invalid logout request"

-- `ForgotPasswordUseCase._validate_input` before the schema
unfoldable pub check_forgot_form : {World : Type 0} → Form → Exec World Unit
unfolding invalid_user_input
check_forgot_form form = do
  raise_if (is_empty form) (
      invalid_user_input (("general", "Email is required" ∷ []) ∷ [])
        "Please provide your email address.")
  raise_if (str_eq (strip (field_of "email" form)) "") (
      invalid_user_input (("email", "Email is required" ∷ []) ∷ [])
        "Please provide your email address.")

-- the email of a form, as `execute` may read it for an exception
abbrev pub email_of_form : Form → Option String
email_of_form form = lookup "email" form

-- `account_of` gives the entity of the user who calls, and `respond` stands for what the schema of the
-- response makes of its arguments.
module _ {Users Tokens : Type 0} (users : UserRepository Users) (bcrypt : Bcrypt)
    (unicode : Unicode) (draw : ℕ) (lower : String → String) (account_of : Actor → Account)
    (respond : Outcome (Unit {0})) where
  abbrev pub by_user :
      {Input Out : Type 0}
      → Option Actor
      → (Account → Exec (AuthWorld Users Tokens Input) Out)
      → Exec (AuthWorld Users Tokens Input) Out
  by_user none run = raise attribute_error
  by_user (some u) run = run (account_of u)

  abbrev pub change_use_case :
      (Form → Outcome ChangeInput) → UseCase (AuthWorld Users Tokens ChangeInput) Form Unit
  change_use_case schema = record {
    class_name = "ChangePasswordUseCase";
    config = default_configuration;
    email_of = email_of_form;
    validate_input = λ form ctx. do
      reject_missing form change_fields "Password change data is required"
      validate_form schema change_message form;
    on_execute = λ form user ctx. with_input (λ input. by_user user (
        change_password ChangeInput users domain_service bcrypt unicode draw operation_context
          respond input));
    validate_output = λ out ctx. pure tt;
  }

  abbrev pub reset_use_case :
      (Form → Outcome ResetInput) → UseCase (AuthWorld Users Tokens ResetInput) Form Unit
  reset_use_case schema = record {
    class_name = "ResetPasswordUseCase";
    config = open_configuration;
    email_of = email_of_form;
    validate_input = λ form ctx. do
      reject_missing form reset_fields "Reset data is required"
      validate_form schema reset_message form;
    on_execute = λ form user ctx. with_input (
        reset_password ResetInput users domain_service bcrypt unicode draw operation_context
          respond);
    validate_output = λ out ctx. pure tt;
  }

  -- The input is the email.
  abbrev pub forgot_use_case :
      (Form → Outcome String) → UseCase (AuthWorld Users Tokens String) Form Unit
  forgot_use_case schema = record {
    class_name = "ForgotPasswordUseCase";
    config = open_configuration;
    email_of = email_of_form;
    validate_input = λ form ctx. do
      check_forgot_form form
      validate_form schema forgot_message form;
    on_execute = λ form user ctx. with_input (λ email.
        forgot_password String users domain_service bcrypt unicode draw operation_context respond
          (strip (lower email)));
    validate_output = λ out ctx. pure tt;
  }

  -- The input is the refresh token, where one is given.
  abbrev pub logout_use_case :
      (Form → Outcome (Option String)) → UseCase (AuthWorld Users Tokens (Option String)) Form Unit
  logout_use_case schema = record {
    class_name = "LogoutUseCase";
    config = default_configuration;
    email_of = email_of_form;
    validate_input = λ form ctx. validate_form schema logout_message form;
    on_execute = λ form user ctx.
        with_input (λ token.
          by_user user (logout (Option String) users jwt_manager operation_context token));
    validate_output = λ out ctx. pure tt;
  }

-- `LoginUseCase`
module _ {Users Tokens : Type 0} (users : UserRepository Users) (jwt : JwtService Tokens)
    (bcrypt : Bcrypt) (email_str : String → EmailCheck) (str_id : ℕ → String)
    (has_auth_service : Bool) where
  abbrev pub login_use_case : UseCase (AuthWorld Users Tokens LoginInput) Form LoginResponse
  login_use_case = record {
    class_name = "LoginUseCase";
    config = login_configuration;
    email_of = email_of_form;
    validate_input =
        λ form ctx. Login.validate_input users jwt bcrypt email_str str_id has_auth_service form;
    on_execute =
        λ form user ctx. Login.on_execute users jwt bcrypt email_str str_id has_auth_service;
    validate_output = λ out ctx. pure tt;
  }
