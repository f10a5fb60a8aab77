-- ===== src/Auth/Requests/Breaking.antt =====
-- `execute` of apps/tcc/usecase/usecases/base/base_uc.py for a use case whose `_on_execute` always raises
-- an AttributeError before it changes anything.
use taunggyi_city_church.Common.{
  ◌≡◌, refl, ap, ◌∙◌, true, false, not, ◌&&◌, is_some, Option, none, some, String, if◌then◌else◌,
  Bool-cases, inl, inr, arith,
}
use taunggyi_city_church.Common.Exec.{Outcome-cases, Exec, Exn, ok, raised, attribute_error}
use taunggyi_city_church.UseCase.Access.{Actor, is_authorized}
use taunggyi_city_church.UseCase.Base.{
  UseCase, App, OperationContext, execute, attempt, before_execute, execute_main_logic,
  internal_error, handle_exception, finalize_execution,
}
use taunggyi_city_church.UseCase.Base.Guards.{
  AtomicLaws, transaction_falls_back, refuses_unauthorized,
}

module _ {World In Out : Type 0} (run_transaction : Exec World Out → Exec World Out)
    (rollback : World → World → World) (atomic : AtomicLaws run_transaction rollback)
    (nothing_undone : (w : World) → rollback w w ≡ w) (uc : UseCase World In Out) where
  -- every run of the body raises an AttributeError and changes nothing
  abbrev pub Breaks : Type 0
  Breaks =
      (input : In) (user : Option Actor) (ctx : OperationContext In Out) (w : World)
      → uc.on_execute input user ctx w ≡ (raised attribute_error, w)

  -- what the validation of an input leaves
  abbrev pub validation : In → Option Actor → String → Exec World Unit
  validation input user operation_id = uc.validate_input input (record {
    operation_id = operation_id;
    user = user;
    input_data = input;
    output_data = none;
    error = none;
  })

  breaks_twice :
      Breaks
      → uc.config.transactional ≡ true
      → (ctx : OperationContext In Out) (w : World)
      → execute_main_logic run_transaction uc ctx w ≡ (raised attribute_error, w)
  breaks_twice breaks transactional ctx w =
      let body = uc.on_execute ctx.input_data ctx.user ctx in
      let once = breaks ctx.input_data ctx.user ctx w in
      (transaction_falls_back run_transaction uc rollback atomic ctx w transactional).1
        attribute_error (ap (λ p. p.0) once)
      ∙ ap (λ p. body (rollback w p.1)) once
      ∙ ap body (nothing_undone w)
      ∙ once

  -- a user who is missing where one is required is not let through
  asked_for :
      (user : Option Actor) (s : App World)
      → (is_authorized user uc.config none s.manager).0 ≡ true
      → (uc.config.require_authentication && not (is_some user)) ≡ false
  unfolding is_authorized
  asked_for none s allowed = elim (Bool-cases uc.config.require_authentication) [
    | inr open_to_all ↦ rw open_to_all refl
    | inl asked ↦ absurd (ground (arith, allowed, asked))
  ]
  asked_for (some u) s allowed = ground arith

  let_through :
      Breaks
      → uc.config.transactional ≡ true
      → uc.config.validate_input ≡ true
      → (operation_id : String) (input : In) (user : Option Actor) (s : App World) (w1 : World)
      → validation input user operation_id s.world ≡ (ok tt, w1)
      → (is_authorized user uc.config none s.manager).0 ≡ true
      → let (r, s') = execute run_transaction uc operation_id input user s in
        (r ≡ raised internal_error) × (s'.world ≡ w1)
  unfolding execute attempt before_execute handle_exception finalize_execution
  let_through breaks transactional validates operation_id input user s w1 passes allowed =
      rw
        (
          asked_for user s allowed,
          allowed,
          validates,
          passes,
          breaks_twice breaks transactional
              (record {
                operation_id = operation_id;
                user = user;
                input_data = input;
                output_data = none;
                error = none;
              })
              w1,
        )
        (refl, ground arith)

  answers_500 :
      Breaks
      → uc.config.transactional ≡ true
      → uc.config.validate_input ≡ true
      → (operation_id : String) (input : In) (user : Option Actor) (s : App World) (w1 : World)
      → validation input user operation_id s.world ≡ (ok tt, w1)
      → let (r, s') = execute run_transaction uc operation_id input user s in
        (r ≡ raised internal_error)
        × (s'.world ≡ (if (is_authorized user uc.config none s.manager).0 then w1 else s.world))
  answers_500 breaks transactional validates operation_id input user s w1 passes =
      elim (Bool-cases (is_authorized user uc.config none s.manager).0) [
        | inl allowed ↦
            let (answer, left) =
              let_through breaks transactional validates operation_id input user s w1 passes
                allowed in
            (answer, rw allowed left)
        | inr refused ↦
            let (answer, left) =
              refuses_unauthorized run_transaction uc operation_id input user s refused in
            (answer, rw refused left)
      ]

  -- If the validation leaves a part of the world alone, each call raises and leaves that part alone,
  -- and what it raises for a valid input is the internal error.
  pub never_answers :
      {K : Type 0} (kept : World → K)
      → Breaks
      → uc.config.transactional ≡ true
      → uc.config.validate_input ≡ true
      → ((input : In) (ctx : OperationContext In Out) (w : World)
          → kept (uc.validate_input input ctx w).1 ≡ kept w)
      → (operation_id : String) (input : In) (user : Option Actor) (s : App World)
      → let (r, s') = execute run_transaction uc operation_id input user s in
        (e : Exn) × (r ≡ raised e)
        × (kept s'.world ≡ kept s.world)
        × ((validation input user operation_id s.world).0 ≡ ok tt → e ≡ internal_error)
  unfolding execute attempt before_execute finalize_execution
  never_answers kept breaks transactional validates keeps operation_id input user s =
      let ctx : OperationContext In Out = record {
        operation_id = operation_id;
        user = user;
        input_data = input;
        output_data = none;
        error = none;
      } in
      let w1 = (uc.validate_input input ctx s.world).1 in
      elim (Bool-cases (is_authorized user uc.config none s.manager).0) [
        | inr refused ↦
            let (answer, left) =
              refuses_unauthorized run_transaction uc operation_id input user s refused in
            (internal_error, answer, ap kept left, λ valid. refl)
        | inl allowed ↦ elim (Outcome-cases (uc.validate_input input ctx s.world).0) [
          | inl (u, passes) ↦
              let valid : uc.validate_input input ctx s.world ≡ (ok tt, w1) =
                ap (λ o. (o, w1)) passes in
              let (answer, left) =
                let_through breaks transactional validates operation_id input user s w1 valid
                  allowed in
              (internal_error, answer, ap kept left ∙ keeps input ctx s.world, λ valid. refl)
          | inr (e, stops) ↦ (
            handle_exception uc.class_name (uc.email_of input) e,
            rw (asked_for user s allowed, allowed, validates, stops) refl,
            ap kept (rw (asked_for user s allowed, allowed, validates, stops) (ground arith))
                ∙ keeps input ctx s.world,
            λ valid. cc,
          )
        ]
      ]
