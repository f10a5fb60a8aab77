-- ===== src/Auth/Recovery.antt =====
-- `ChangePasswordUseCase`, `ResetPasswordUseCase` and `ForgotPasswordUseCase` of
-- apps/tcc/usecase/usecases/auth/change_password.py, reset_password.py and forgot_password.py.
use Prim.Native.String.{◌++◌}
use taunggyi_city_church.Common.{
  ℕ, ◌-◌, Bool, true, false, not, Option, none, some, List, [], ◌∷◌, map, String, str_eq, or_else,
  any, is_empty, length, drop, if◌then◌else◌,
}
use taunggyi_city_church.Common.Exec.{
  Outcome, Exec, raised, pure, raise, raise_if, ◌>>=◌, ◌>>◌, Exn, attribute_error,
}
use taunggyi_city_church.Common.Dict.{Dict}
use taunggyi_city_church.Common.Chars.{join}
use taunggyi_city_church.UseCase.Errors.{invalid_user_input}
use taunggyi_city_church.Auth.Accounts.{
  Account, Change, set_password_hash, set_is_locked, set_lock_reason, set_failed_login_attempts,
  set_requires_password_change, set_last_password_change, UserRepository, AuthWorld, audit_login,
  send_password_reset_email, on_users, on_tokens, create_task, Form, field_of,
}
use taunggyi_city_church.Auth.Passwords.{
  Bcrypt, Unicode, hash_password, verify_password, is_password_strong,
}

pub record ChangeInput : Type 0 where
  pub current_password : String
  pub new_password : String

pub record ResetInput : Type 0 where
  pub token : String
  pub new_password : String

-- `AsyncAuthDomainService` as the use cases call it. `reset_email` says whether it has the method
-- send_password_reset_email_async, whose coroutine becomes a task.
pub record AuthService (Tokens : Type 0) : Type 0 where
  pub validate_reset_token : String → Exec Tokens (Option ℕ)
  pub invalidate_reset_token : String → Exec Tokens Unit
  pub invalidate_all_sessions_async : ℕ → Exec Tokens Unit
  pub send_password_changed_notification_async : ℕ → String → Exec Tokens Unit
  pub check_rate_limit : String → ℕ → ℕ → Exec Tokens Bool
  pub audit_login_async : ℕ → String → Exec Tokens Unit
  pub reset_email : Outcome (Unit {0})

-- The class in apps/tcc/usecase/services/auth/auth_service.py has, of these methods, only
-- audit_login_async, which raises nothing; what it writes is not modelled.
abbrev pub domain_service : {Tokens : Type 0} → AuthService Tokens
domain_service = record {
  validate_reset_token = λ token. raise attribute_error;
  invalidate_reset_token = λ token. raise attribute_error;
  invalidate_all_sessions_async = λ id. raise attribute_error;
  send_password_changed_notification_async = λ id email. raise attribute_error;
  check_rate_limit = λ key attempts minutes. raise attribute_error;
  audit_login_async = λ id action. pure tt;
  reset_email = raised attribute_error;
}

-- `ctx.get('request_meta', {}) if ctx else {}`, of an OperationContext, which has no method `get`
abbrev pub operation_context : Outcome (Unit {0})
operation_context = raised attribute_error

-- `password_history[-5:]`
unfoldable pub last_five : List String → List String
last_five history = drop (length history - 5) history

-- whether a password is one of those that may not be used again
unfoldable pub is_reused : Bcrypt → String → Account → Bool
unfolding last_five verify_password
is_reused bcrypt new_password a =
    any (λ old_hash. verify_password bcrypt new_password (some old_hash))
      (last_five (or_else a.password_history []))

-- the missing fields, with their titles, of those asked for
unfoldable pub missing_fields : Form → List (String × String) → List (String × String)
missing_fields form [] = []
missing_fields form ((field, title) ∷ rest) =
    let later = missing_fields form rest in
    if str_eq (field_of field form) "" then (field, title) ∷ later else later

abbrev pub required_errors : List (String × String) → Dict (List String)
required_errors missing = map (λ (f : String × String). (f.0, (f.1 ++ " is required") ∷ [])) missing

abbrev pub reset_fields : List (String × String)
reset_fields =
    ("token", "Token")
    ∷ ("new_password", "New Password")
    ∷ ("confirm_password", "Confirm Password")
    ∷ []

abbrev pub change_fields : List (String × String)
change_fields =
    ("current_password", "Current Password")
    ∷ ("new_password", "New Password")
    ∷ ("confirm_password", "Confirm Password")
    ∷ []

-- `reject_missing form fields none_given`: the checks before the schema that both use cases make
unfoldable pub reject_missing :
    {World : Type 0} → Form → List (String × String) → String → Exec World Unit
unfolding missing_fields invalid_user_input join
reject_missing form fields none_given = do
  raise_if (is_empty form)
      (invalid_user_input (("general", none_given ∷ []) ∷ []) "Please provide all required fields.")
  let missing = missing_fields form fields
  raise_if (not (is_empty missing)) (
      invalid_user_input (required_errors missing)
        ("Missing required fields: " ++ join ", " (map (λ (f : String × String). f.0) missing)))

-- the exceptions for a current password that is wrong and for new ones that are not accepted
abbrev pub wrong_error : Exn
wrong_error =
    invalid_user_input (("current_password", "Current password is incorrect" ∷ []) ∷ [])
      "Current password is incorrect."

abbrev pub weak_error : Option String → Exn
weak_error message =
    invalid_user_input (("new_password", or_else message "" ∷ []) ∷ [])
      ("Password is too weak: " ++ or_else message "")

abbrev pub reused_error : Exn
reused_error =
    invalid_user_input (("new_password", "Cannot reuse previous passwords" ∷ []) ∷ [])
      "You cannot reuse a previous password."

-- the changes of a reset
abbrev pub reset_changes : String → List Change
reset_changes hashed =
    set_password_hash hashed
    ∷ set_last_password_change
    ∷ set_failed_login_attempts 0
    ∷ set_is_locked false
    ∷ set_lock_reason none
    ∷ set_requires_password_change false
    ∷ []

-- `respond` is what the schema of the response makes of its arguments, and `draw` the number of the
-- salt.
module _ (Input : Type 0) {Users Tokens : Type 0} (users : UserRepository Users)
    (service : AuthService Tokens) (bcrypt : Bcrypt) (unicode : Unicode) (draw : ℕ)
    (context : Outcome (Unit {0})) (respond : Outcome (Unit {0})) where
  abbrev pub World : Type 0
  World = AuthWorld Users Tokens Input

  abbrev pub lift : {A : Type 0} → Outcome A → Exec World A
  lift r w = (r, w)

  -- `is_password_strong`, with the message in the exception
  unfoldable pub demand_strong : String → Exec World Unit
  demand_strong new_password =
      let (is_strong, message) = is_password_strong unicode new_password in
      raise_if (not is_strong) (weak_error message)

  -- the loop over the last passwords
  unfoldable pub demand_unused : String → Account → Exec World Unit
  demand_unused new_password a = raise_if (is_reused bcrypt new_password a) reused_error

  -- `ChangePasswordUseCase._on_execute`
  unfoldable pub change_password : ChangeInput → Account → Exec World Unit
  change_password input user = do
    lift context
    raise_if (not (verify_password bcrypt input.current_password user.password_hash)) wrong_error
    demand_strong input.new_password
    demand_unused input.new_password user
    hashed ← lift (hash_password bcrypt draw input.new_password)
    on_users (
        users.update user.id (
          set_password_hash hashed
          ∷ set_last_password_change
          ∷ set_requires_password_change false
          ∷ []))
    create_task (audit_login user.id "PASSWORD_CHANGED")
    lift respond

  -- `if not token_valid`; the id of the user is in the data of a valid token
  abbrev pub demand_token : Option ℕ → Exec World ℕ
  demand_token none = raise (
      invalid_user_input (("token", "Invalid or expired reset token" ∷ []) ∷ [])
        "The reset link is invalid or has expired.")
  demand_token (some user_id) = pure user_id

  abbrev pub demand_user : Option Account → Exec World Account
  demand_user none =
      raise (invalid_user_input (("user", "User not found" ∷ []) ∷ []) "User account not found.")
  demand_user (some a) = pure a

  -- the part of `ResetPasswordUseCase._on_execute` after the checks
  unfoldable pub store_reset : String → String → ℕ → Account → Exec World Unit
  store_reset token hashed user_id a = do
    on_users (users.update user_id (reset_changes hashed))
    on_tokens (service.invalidate_reset_token token)
    on_tokens (service.invalidate_all_sessions_async user_id)
    on_tokens (service.send_password_changed_notification_async user_id a.email)
    on_tokens (service.audit_login_async user_id "PASSWORD_RESET")
    lift respond

  -- `ResetPasswordUseCase._on_execute`
  unfoldable pub reset_password : ResetInput → Exec World Unit
  reset_password input = do
    lift context
    token_data ← on_tokens (service.validate_reset_token input.token)
    user_id ← demand_token token_data
    found ← on_users (users.get_by_id user_id)
    a ← demand_user found
    demand_strong input.new_password
    demand_unused input.new_password a
    hashed ← lift (hash_password bcrypt draw input.new_password)
    store_reset input.token hashed user_id a

  -- the two tasks of `ForgotPasswordUseCase._on_execute`, for a user who may get an email
  abbrev pub send_reset : String → Account → Exec World Unit
  send_reset email a = do
    lift context
    lift service.reset_email
    create_task (send_password_reset_email a.id email)
    create_task (audit_login a.id "FORGOT_PASSWORD_REQUEST")

  -- `ForgotPasswordUseCase._on_execute`, of the email in lower case and stripped: the answer is the
  -- same on each way.
  unfoldable pub forgot_password : String → Exec World Unit
  forgot_password email = do
    can_proceed ← on_tokens (service.check_rate_limit ("forgot_password:" ++ email) 3 15)
    if can_proceed
        then (do
          found ← on_users (users.get_by_email email false)
          elim found [
            | none ↦ lift respond
            | some a ↦
                if or_else a.is_locked false
                then lift respond
                else if not (or_else a.is_active true)
                then lift respond
                else (do send_reset email a; lift respond)
          ])
        else lift respond
