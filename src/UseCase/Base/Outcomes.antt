-- ===== src/UseCase/Base/Outcomes.antt =====
-- What `execute` of apps/tcc/usecase/usecases/base/base_uc.py comes to.
use taunggyi_city_church.Common.{
  ℕ, ◌≡◌, ap, ◌∙◌, Bool, true, false, ◌||◌, Option, none, some, List, [], ◌∷◌, ◌++◌, String, arith,
  if◌then◌else◌, Bool-cases, inl, inr,
}
use mathlib.Core.List.{append-nil}
use taunggyi_city_church.Common.Exec.{
  Outcome, ok, raised, Exn, Exec, domain, invalid_auth_input, integrity_error, other_error,
}
use taunggyi_city_church.Common.Chars.{mentions}
use taunggyi_city_church.UseCase.Access.{Actor}
use taunggyi_city_church.UseCase.Base.{
  UseCase, App, LogEntry, OperationContext, handle_exception, before_execute, attempt, translate,
  error_of, finalize_execution, execute,
}

-- a DomainException or an InvalidAuthInputException
abbrev pub IsReported : Exn → Type 0
IsReported (domain e) = Unit
IsReported (invalid_auth_input e) = Unit
IsReported _ = ⊥

abbrev pub Answers {ℓ} : {A : Type ℓ} → Outcome A → Type 0
Answers (ok a) = Unit
Answers (raised e) = IsReported e

abbrev pub is_ok {ℓ} : {A : Type ℓ} → Outcome A → Bool
is_ok (ok a) = true
is_ok (raised e) = false

handle_exception-IsReported :
    (class_name : String) (email : Option String) (e : Exn)
    → IsReported (handle_exception class_name email e)
unfolding handle_exception
handle_exception-IsReported class_name email (integrity_error text) =
    elim (Bool-cases (mentions "unique" text || mentions "duplicate" text)) [
      | inr other ↦ rw other tt
      | inl double ↦ elim (Bool-cases (mentions "user" class_name)) [
        | inl of_user ↦ rw (double, of_user) tt
        | inr not_of_user ↦ rw (double, not_of_user) tt
      ]
    ]
handle_exception-IsReported class_name email e = tt

-- `getattr(ctx.user, 'id', 'anonymous')`, an anonymous user being none
abbrev pub id_of : Option Actor → Option ℕ
id_of none = none
id_of (some u) = some u.id

module _ {World In Out : Type 0} (run_transaction : Exec World Out → Exec World Out)
    (uc : UseCase World In Out) where
  attempt_keeps_log :
      (ctx : OperationContext In Out) (s : App World)
      → (attempt run_transaction uc ctx s).1.log ≡ s.log
  unfolding attempt before_execute
  attempt_keeps_log ctx s = ground arith

  -- the entry that a call should leave in the log
  abbrev pub entry_of : String → Option Actor → Outcome Out → LogEntry
  entry_of operation_id user r = record {
    operation_name = uc.class_name;
    operation_id = operation_id;
    user_identifier = id_of user;
    was_successful = is_ok r;
  }

  abbrev logged : LogEntry → List LogEntry
  logged entry = if uc.config.audit_log then entry ∷ [] else []

  translated : (input : In) (r : Outcome Out) → Answers (translate run_transaction uc input r)
  translated input (ok a) = tt
  translated input (raised e) = handle_exception-IsReported uc.class_name (uc.email_of input) e

  abbrev context_of : String → In → Option Actor → Outcome Out → OperationContext In Out
  context_of operation_id input user r = record {
    operation_id = operation_id;
    user = user;
    input_data = input;
    output_data = none;
    error = error_of run_transaction uc r;
  }

  finalized :
      (operation_id : String) (input : In) (user : Option Actor) (r : Outcome Out) (s : App World)
      → (finalize_execution run_transaction uc (context_of operation_id input user r) s).log
        ≡ (s.log ++ logged (entry_of operation_id user (translate run_transaction uc input r)))
  unfolding finalize_execution
  finalized operation_id input none (ok a) s = ground (arith, append-nil s.log)
  finalized operation_id input user r s = ground (arith, append-nil s.log)

  -- Whatever the hooks of a use case do, execute returns or raises a DomainException or an
  -- InvalidAuthInputException. It adds one entry to the log, which tells whether it returned, if
  -- the use case is audited, and none if it is not.
  pub execute_reports :
      (operation_id : String) (input : In) (user : Option Actor) (s : App World)
      → let (r, s') = execute run_transaction uc operation_id input user s in
        Answers r
        × (s'.log
            ≡ (s.log ++ (if uc.config.audit_log then entry_of operation_id user r ∷ [] else [])))
  unfolding execute
  execute_reports operation_id input user s =
      let ctx : OperationContext In Out =
        record (context_of operation_id input user (raised other_error)) { error = none } in
      let r = (attempt run_transaction uc ctx s).0 in
      let s' = (attempt run_transaction uc ctx s).1 in
      (
        translated input r,
        finalized operation_id input user r s'
            ∙ ap
                (λ l.
                  l ++ logged (entry_of operation_id user (translate run_transaction uc input r)))
                (attempt_keeps_log ctx s),
      )
