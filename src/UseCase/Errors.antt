-- ===== src/UseCase/Errors.antt =====
-- The exceptions that the use cases raise, as their constructors fill them in:
-- apps/core/core_exceptions/domain.py, and auth_exceptions.py and u_exceptions.py of
-- apps/tcc/usecase/domain_exception.
use Prim.Native.String.{◌++◌}
use taunggyi_city_church.Common.{
  ℕ, Option, none, some, List, [], ◌∷◌, map, String, str_eq, if◌then◌else◌,
}
use taunggyi_city_church.Common.Exec.{
  AppError, Exn, domain, invalid_auth_input, app_error, type_error,
}
use taunggyi_city_church.Common.Chars.{join}
use taunggyi_city_church.Common.Dict.{Dict}

-- a text that is given and not empty, or the other
abbrev pub given_or : Option String → String → String
given_or none other = other
given_or (some s) other = if str_eq s "" then other else s

-- `DomainException(message, error_code, status_code, user_message=…)`
unfoldable pub domain_exception : String → String → ℕ → Option String → Exn
domain_exception message error_code status_code user_message = domain (record {
  class_name = "DomainException";
  message = message;
  error_code = error_code;
  status_code = status_code;
  user_message = given_or user_message message;
  field_errors = [];
})

-- `DomainValidationException(message, field_errors, user_message=…)`
unfoldable pub validation_exception : String → Dict (List String) → Option String → Exn
validation_exception message field_errors user_message = domain (record {
  class_name = "ValidationException";
  message = message;
  error_code = "VALIDATION_ERROR";
  status_code = 400;
  user_message = given_or user_message "Validation failed. Please check your input.";
  field_errors = field_errors;
})

-- `InvalidUserInputException(field_errors, user_message=…)`
unfoldable pub invalid_user_input : Dict (List String) → String → Exn
invalid_user_input field_errors user_message = domain (record {
  class_name = "InvalidUserInputException";
  message = "Invalid user input";
  error_code = "VALIDATION_ERROR";
  status_code = 400;
  user_message = given_or (some user_message) "Validation failed. Please check your input.";
  field_errors = field_errors;
})

-- `BusinessRuleException`, of the class named
unfoldable pub business_rule : String → String → ℕ → Option String → Exn
business_rule class_name message status_code user_message = domain (record {
  class_name = class_name;
  message = message;
  error_code = "BUSINESS_RULE_VIOLATION";
  status_code = status_code;
  user_message = given_or user_message "A business rule violation occurred.";
  field_errors = [];
})

-- `UserAlreadyExistsException(email)`
unfoldable pub user_already_exists : Option String → Exn
unfolding business_rule
user_already_exists email =
    let found = given_or email "" in
    business_rule "UserAlreadyExistsException"
      (if str_eq found ""
        then "User already exists"
        else "User with email '" ++ (found ++ "' already exists"))
      409 (some "An account with this email already exists. Please use a different email or login.")

-- `AccountLockedException(user_id, lock_reason, user_message=…)`, with the id as a text
unfoldable pub account_locked : String → Option String → Exn
unfolding business_rule
account_locked user_id user_message =
    business_rule "AccountLockedException" ("User account " ++ (user_id ++ " is locked")) 422
      (some (given_or user_message "Your account has been locked. Please contact support."))

-- The constructor of `UserNotFoundException` has no parameter user_message, which every caller gives.
unfoldable pub user_not_found : Exn
user_not_found = type_error

-- The classes of auth_exceptions.py take their user_message from the message.
abbrev pub auth_error : String → String → String → ℕ → AppError
auth_error class_name message error_code status_code = record {
  class_name = class_name;
  message = message;
  error_code = error_code;
  status_code = status_code;
  user_message = message;
  field_errors = [];
}

-- `UnauthenticatedException(message)`
unfoldable pub unauthenticated : String → Exn
unauthenticated message =
    app_error (auth_error "UnauthenticatedException" message "AUTHENTICATION_REQUIRED" 401)

-- `AuthorizationException(message)`
unfoldable pub unauthorized : String → Exn
unauthorized message =
    app_error (auth_error "AuthorizationException" message "AUTHORIZATION_ERROR" 403)

-- `AccountInactiveException(username)`
unfoldable pub account_inactive : String → Exn
account_inactive username = app_error (
    auth_error "AccountInactiveException" ("Account '" ++ (username ++ "' is inactive"))
      "ACCOUNT_INACTIVE" 401)

-- `InvalidAuthInputException(field_errors, user_message)`
unfoldable pub invalid_auth : Dict (List String) → String → Exn
unfolding join
invalid_auth field_errors user_message = invalid_auth_input (record {
  class_name = "InvalidAuthInputException";
  message = elim field_errors [
    | [] ↦ "Authentication input validation failed"
    | (e ∷ rest) ↦
        "Validation error in fields: "
        ++ join ", " (map (λ (f : String × List String). f.0) (e ∷ rest))
  ];
  error_code = "INVALID_AUTH_INPUT";
  status_code = 400;
  user_message = given_or (some user_message) "Please check your input and try again.";
  field_errors = field_errors;
})
