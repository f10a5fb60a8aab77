-- ===== src/Auth/Requests/Failures.antt =====
-- What `execute` answers for the use cases of apps/tcc/usecase/usecases/auth that call a method which
-- their context or their services do not have.
use taunggyi_city_church.Common.{
  ◌≡◌, refl, ◌∙◌, Bool, true, false, Option, none, some, String, ℕ, List, inl, inr,
}
use taunggyi_city_church.Common.Exec.{
  Outcome-cases, Outcome, Exec, Exn, ok, raised, attribute_error, validation_error, raise_if, ◌>>=◌,
  ◌>>◌,
}
use taunggyi_city_church.Common.Dict.{Dict}
use taunggyi_city_church.UseCase.Access.{Actor}
use taunggyi_city_church.UseCase.Base.{UseCase, App, OperationContext, execute, internal_error}
use taunggyi_city_church.UseCase.Base.Guards.{AtomicLaws}
use taunggyi_city_church.Auth.Accounts.{Account, UserRepository, AuthWorld, Form, Task}
use taunggyi_city_church.Auth.Passwords.{Bcrypt, Unicode}
use taunggyi_city_church.Auth.Recovery.{
  ChangeInput, ResetInput, change_password, reset_password, forgot_password, reject_missing,
}
use taunggyi_city_church.Auth.Session.{logout}
use taunggyi_city_church.Auth.Requests.{
  change_use_case, reset_use_case, forgot_use_case, logout_use_case, the_input, by_user,
  check_forgot_form, validate_form, reject,
}
use taunggyi_city_church.Auth.Requests.Breaking.{Breaks, validation, never_answers}

module _ (Users Tokens Input : Type 0) where
  -- the users, the tokens and the tasks
  abbrev pub kept : AuthWorld Users Tokens Input → Users × Tokens × List Task
  kept w = (w.users, w.tokens, w.tasks)

  abbrev Keeps : {A : Type 0} → Exec (AuthWorld Users Tokens Input) A → Type 0
  Keeps f = (w : AuthWorld Users Tokens Input) → kept (f w).1 ≡ kept w

  raise_if-Keeps : (b : Bool) (e : Exn) → Keeps (raise_if b e)
  raise_if-Keeps true e w = refl
  raise_if-Keeps false e w = refl

  then-Keeps :
      {A B : Type 0} (f : Exec (AuthWorld Users Tokens Input) A)
      (g : Exec (AuthWorld Users Tokens Input) B)
      → Keeps f
      → Keeps g
      → Keeps (f >> g)
  then-Keeps f g hf hg w = elim (Outcome-cases (f w).0) [
    | inl (a, returns) ↦ rw returns (hg (f w).1 ∙ hf w)
    | inr (e, raises) ↦ rw raises (hf w)
  ]

  reject_missing-Keeps :
      (form : Form) (fields : List (String × String)) (none_given : String)
      → Keeps (reject_missing form fields none_given)
  unfolding reject_missing
  reject_missing-Keeps form fields none_given =
      then-Keeps _ _ (raise_if-Keeps _ _) (raise_if-Keeps _ _)

  check_forgot_form-Keeps : (form : Form) → Keeps (check_forgot_form form)
  unfolding check_forgot_form
  check_forgot_form-Keeps form = then-Keeps _ _ (raise_if-Keeps _ _) (raise_if-Keeps _ _)

  reject-Keeps : (message : Dict (List String) → String) (e : Exn) → Keeps (reject message e)
  reject-Keeps message (validation_error errors) w = refl
  reject-Keeps message e w = refl

  validate_form-Keeps :
      (schema : Form → Outcome Input) (message : Dict (List String) → String) (form : Form)
      → Keeps (validate_form schema message form)
  unfolding validate_form
  validate_form-Keeps schema message form w = elim (Outcome-cases (schema form)) [
    | inl (input, valid) ↦ rw valid refl
    | inr (e, invalid) ↦ rw invalid (reject-Keeps message e w)
  ]

-- The transactions of the database, over the world of each use case. They put nothing back where
-- nothing was changed.
pub record Transactions (Users Tokens : Type 0) : Type 1 where
  pub run :
      {Input Out : Type 0}
      → Exec (AuthWorld Users Tokens Input) Out
      → Exec (AuthWorld Users Tokens Input) Out
  pub rollback :
      {Input : Type 0}
      → AuthWorld Users Tokens Input
      → AuthWorld Users Tokens Input
      → AuthWorld Users Tokens Input
  pub atomic : {Input Out : Type 0} → AtomicLaws (run {Input = Input} {Out = Out}) rollback
  pub nothing_undone : {Input : Type 0} (w : AuthWorld Users Tokens Input) → rollback w w ≡ w

module _ {Users Tokens : Type 0} (database : Transactions Users Tokens)
    (users : UserRepository Users) (bcrypt : Bcrypt) (unicode : Unicode) (draw : ℕ)
    (lower : String → String) (account_of : Actor → Account) (respond : Outcome (Unit {0})) where
  -- Each call of a use case raises and leaves the users, the tokens and the tasks as they were; for an
  -- input that passes the validation it raises the internal error.
  abbrev pub Fails : {Input : Type 0} → UseCase (AuthWorld Users Tokens Input) Form Unit → Type 0
  Fails {Input} uc =
      (operation_id : String) (form : Form) (user : Option Actor)
      (s : App (AuthWorld Users Tokens Input))
      → let (r, s') = execute (Transactions.run database) uc operation_id form user s in
        (e : Exn) × (r ≡ raised e)
        × (kept Users Tokens Input s'.world ≡ kept Users Tokens Input s.world)
        × ((validation (Transactions.run database) (Transactions.rollback database)
                (Transactions.atomic database) (Transactions.nothing_undone database) uc form user
                operation_id s.world).0
              ≡ ok tt
            → e ≡ internal_error)

  breaking-Fails :
      {Input : Type 0} (uc : UseCase (AuthWorld Users Tokens Input) Form Unit)
      → Breaks
          (Transactions.run database)
          (Transactions.rollback database)
          (Transactions.atomic database)
          (Transactions.nothing_undone database)
          uc
      → uc.config.transactional ≡ true
      → uc.config.validate_input ≡ true
      → ((input : Form) (ctx : OperationContext Form Unit) (w : AuthWorld Users Tokens Input)
          → kept Users Tokens Input (uc.validate_input input ctx w).1 ≡ kept Users Tokens Input w)
      → Fails uc
  breaking-Fails {Input} uc =
      never_answers (Transactions.run database) (Transactions.rollback database)
        (Transactions.atomic database) (Transactions.nothing_undone database) uc
        (kept Users Tokens Input)

  input_breaks :
      {Input : Type 0} (run : Input → Exec (AuthWorld Users Tokens Input) Unit)
      (w : AuthWorld Users Tokens Input) (v : Option Input)
      → ((input : Input) → run input w ≡ (raised attribute_error, w))
      → (do input ← the_input v; run input) w ≡ (raised attribute_error, w)
  input_breaks run w none breaks = refl
  input_breaks run w (some input) breaks = breaks input

  user_breaks :
      {Input : Type 0} (run : Account → Exec (AuthWorld Users Tokens Input) Unit)
      (w : AuthWorld Users Tokens Input) (user : Option Actor)
      → ((a : Account) → run a w ≡ (raised attribute_error, w))
      → by_user users bcrypt unicode draw lower account_of respond user run w
        ≡ (raised attribute_error, w)
  user_breaks run w none breaks = refl
  user_breaks run w (some u) breaks = breaks (account_of u)

  change-Fails :
      (schema : Form → Outcome ChangeInput)
      → Fails (change_use_case users bcrypt unicode draw lower account_of respond schema)
  unfolding change_password
  change-Fails schema =
      breaking-Fails _
        (λ form user ctx w.
          input_breaks _ w w.validated_input (λ input. user_breaks _ w user (λ a. refl)))
        refl refl
        (λ form ctx.
          then-Keeps Users Tokens ChangeInput _ _
            (reject_missing-Keeps Users Tokens ChangeInput form _ _)
            (validate_form-Keeps Users Tokens ChangeInput schema _ form))

  reset-Fails :
      (schema : Form → Outcome ResetInput)
      → Fails (reset_use_case users bcrypt unicode draw lower account_of respond schema)
  unfolding reset_password
  reset-Fails schema =
      breaking-Fails _ (λ form user ctx w. input_breaks _ w w.validated_input (λ input. refl)) refl
        refl
        (λ form ctx.
          then-Keeps Users Tokens ResetInput _ _
            (reject_missing-Keeps Users Tokens ResetInput form _ _)
            (validate_form-Keeps Users Tokens ResetInput schema _ form))

  forgot-Fails :
      (schema : Form → Outcome String)
      → Fails (forgot_use_case users bcrypt unicode draw lower account_of respond schema)
  unfolding forgot_password
  forgot-Fails schema =
      breaking-Fails _ (λ form user ctx w. input_breaks _ w w.validated_input (λ email. refl)) refl
        refl
        (λ form ctx.
          then-Keeps Users Tokens String _ _ (check_forgot_form-Keeps Users Tokens String form)
            (validate_form-Keeps Users Tokens String schema _ form))

  logout-Fails :
      (schema : Form → Outcome (Option String))
      → Fails (logout_use_case users bcrypt unicode draw lower account_of respond schema)
  unfolding logout
  logout-Fails schema =
      breaking-Fails _
        (λ form user ctx w.
          input_breaks _ w w.validated_input (λ token. user_breaks _ w user (λ a. refl)))
        refl refl (λ form ctx. validate_form-Keeps Users Tokens (Option String) schema _ form)

  -- With the services that the program gives them, no call of the use cases that change, reset and
  -- ask for a password and that log out answers: each raises and leaves the users, the tokens and the
  -- tasks as they were, and for an input that passes the validation it raises the internal error.
  -- This needs a transaction that puts the world back as it was where nothing was changed.
  pub recovery-Fails :
      (change : Form → Outcome ChangeInput) (reset : Form → Outcome ResetInput)
      (forgot : Form → Outcome String) (log_out : Form → Outcome (Option String))
      → Fails (change_use_case users bcrypt unicode draw lower account_of respond change)
        × Fails (reset_use_case users bcrypt unicode draw lower account_of respond reset)
        × Fails (forgot_use_case users bcrypt unicode draw lower account_of respond forgot)
        × Fails (logout_use_case users bcrypt unicode draw lower account_of respond log_out)
  recovery-Fails change reset forgot log_out =
      (change-Fails change, reset-Fails reset, forgot-Fails forgot, logout-Fails log_out)
