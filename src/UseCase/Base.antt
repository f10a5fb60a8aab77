-- ===== src/UseCase/Base.antt =====
-- `BaseUseCase` of apps/tcc/usecase/usecases/base/base_uc.py: the order of checks, execution, and what
-- becomes of exceptions. Ids of operations are given; times and metadata are not modelled, and of
-- the log only the entries of `_log_operation` are.
pub mod Outcomes
pub mod Guards
mod Tests
use taunggyi_city_church.Common.{
  ℕ, Bool, true, false, not, ◌&&◌, ◌||◌, Option, none, some, List, [], ◌∷◌, ◌++◌, String, is_some,
  if◌then◌else◌,
}
use taunggyi_city_church.Common.Exec.{
  Outcome, ok, raised, Exn, Exec, pure, raise, catch, raise_if, ◌>>=◌, ◌>>◌, domain,
  invalid_auth_input, integrity_error, data_error, database_error,
}
use taunggyi_city_church.Common.Chars.{mentions}
use taunggyi_city_church.UseCase.Access.{
  Actor, AuthorizationManager, UseCaseConfiguration, is_authorized,
}
use taunggyi_city_church.UseCase.Errors.{
  domain_exception, validation_exception, business_rule, user_already_exists, unauthenticated,
  unauthorized,
}

pub record OperationContext (In Out : Type 0) : Type 0 where
  pub operation_id : String
  pub user : Option Actor
  pub input_data : In
  pub output_data : Option Out
  pub error : Option Exn

-- A subclass: its name, its configuration and what it overrides. `email_of` is
-- `input_data.get('email') if input_data else None`, of a dict or None, which is what the controllers pass. World is what the hooks act on: the database,
-- the caches and the attributes of the use case itself.
pub record UseCase (World In Out : Type 0) : Type 0 where
  pub class_name : String
  pub config : UseCaseConfiguration
  pub email_of : In → Option String
  pub validate_input : In → OperationContext In Out → Exec World Unit
  pub on_execute : In → Option Actor → OperationContext In Out → Exec World Out
  pub validate_output : Option Out → OperationContext In Out → Exec World Unit

-- `log_data`; an anonymous user is none
pub record LogEntry : Type 0 where
  pub operation_name : String
  pub operation_id : String
  pub user_identifier : Option ℕ
  pub was_successful : Bool

pub record App (World : Type 0) : Type 0 where
  pub manager : AuthorizationManager
  pub world : World
  pub log : List LogEntry

-- the default case of `_handle_exception`
unfoldable pub internal_error : Exn
unfolding domain_exception
internal_error =
    domain_exception "An unexpected error occurred" "INTERNAL_ERROR" 500
      (some "An unexpected error occurred. Please try again later.")

-- `_handle_exception`, of an exception with the name of the class and the email of the input
unfoldable pub handle_exception : String → Option String → Exn → Exn
unfolding internal_error domain_exception validation_exception business_rule user_already_exists
handle_exception class_name email (domain e) = domain e
handle_exception class_name email (invalid_auth_input e) = invalid_auth_input e
handle_exception class_name email (integrity_error text) =
    if mentions "unique" text || mentions "duplicate" text
    then if mentions "user" class_name
      then user_already_exists email
      else business_rule "BusinessRuleException" "Duplicate entry found" 422 none
    else internal_error
handle_exception class_name email (data_error text) =
    validation_exception "Invalid data provided" [] none
handle_exception class_name email (database_error text) =
    domain_exception "Database error occurred" "DATABASE_ERROR" 500 none
handle_exception class_name email _ = internal_error

-- `run_transaction` is `sync_to_async(_run_transaction)`: a call inside of transaction.atomic().
module _ {World In Out : Type 0} (run_transaction : Exec World Out → Exec World Out)
    (uc : UseCase World In Out) where
  abbrev pub on_world : {A : Type 0} → Exec World A → Exec (App World) A
  on_world f s = let (r, w) = f s.world in (r, record s { world = w })

  abbrev pub authorized : Option Actor → Exec (App World) Bool
  authorized who s =
      let (b, m) = is_authorized who uc.config none s.manager in (ok b, record s { manager = m })

  abbrev pub when : Bool → Exec World Unit → Exec (App World) Unit
  when true f = on_world f
  when false f = pure tt

  -- `_before_execute`
  unfoldable pub before_execute : OperationContext In Out → Exec (App World) Unit
  unfolding unauthenticated unauthorized
  before_execute ctx = do
    raise_if (uc.config.require_authentication && not (is_some ctx.user))
        (unauthenticated "Authentication required")
    b ← authorized ctx.user
    raise_if (not b) (unauthorized "Insufficient permissions")
    when uc.config.validate_input (uc.validate_input ctx.input_data ctx)

  -- `_execute_main_logic`: a transaction that fails is followed by a run without one.
  unfoldable pub execute_main_logic : OperationContext In Out → Exec World Out
  execute_main_logic ctx =
      let run = uc.on_execute ctx.input_data ctx.user ctx in
      if uc.config.transactional then catch (run_transaction run) (λ e. run) else run

  -- the body of the `try` of `execute`
  unfoldable pub attempt : OperationContext In Out → Exec (App World) Out
  unfolding before_execute execute_main_logic
  attempt ctx = do
    before_execute ctx
    result ← on_world (execute_main_logic ctx)
    let done : OperationContext In Out = record ctx { output_data = some result }
    when uc.config.validate_output (uc.validate_output done.output_data done)
    pure result

  -- what the `except` clauses of `execute` raise
  abbrev pub translate : In → Outcome Out → Outcome Out
  translate input (ok result) = ok result
  translate input (raised e) = raised (handle_exception uc.class_name (uc.email_of input) e)

  abbrev pub error_of : Outcome Out → Option Exn
  error_of (ok result) = none
  error_of (raised e) = some e

  -- `_finalize_execution` and `_log_operation`
  unfoldable pub finalize_execution : OperationContext In Out → App World → App World
  finalize_execution ctx s =
      if uc.config.audit_log
      then record s {
        log =
            s.log
            ++ record {
              operation_name = uc.class_name;
              operation_id = ctx.operation_id;
              user_identifier = elim ctx.user [ none ↦ none | some u ↦ some u.id ];
              was_successful = not (is_some ctx.error);
            }
              ∷ [];
      }
      else s

  unfoldable pub execute : String → In → Option Actor → Exec (App World) Out
  unfolding attempt finalize_execution handle_exception
  execute operation_id input user s =
      let ctx : OperationContext In Out = record {
        operation_id = operation_id;
        user = user;
        input_data = input;
        output_data = none;
        error = none;
      } in
      let (r, s') = attempt ctx s in
      (translate input r, finalize_execution (record ctx { error = error_of r }) s')
