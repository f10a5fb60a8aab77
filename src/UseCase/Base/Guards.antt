-- ===== src/UseCase/Base/Guards.antt =====
-- What `execute` of apps/tcc/usecase/usecases/base/base_uc.py runs, and when.
use taunggyi_city_church.Common.{
  ◌≡◌, refl, Bool, true, false, ◌&&◌, Option, none, some, String, arith, Bool-cases, inl, inr,
}
use taunggyi_city_church.Common.Exec.{Outcome, ok, raised, Exn, Exec, handle}
use taunggyi_city_church.UseCase.Access.{
  Actor, AuthorizationManager, UseCaseConfiguration, is_authorized,
}
use taunggyi_city_church.UseCase.Errors.{unauthenticated, unauthorized}
use taunggyi_city_church.UseCase.Base.{
  UseCase, App, OperationContext, internal_error, handle_exception, before_execute,
  execute_main_logic, attempt, execute,
}

-- What Django documents of a transaction: a body that returns is committed, one that raises is undone
-- in the database and its exception goes on. `rollback` gives the world with the database of the first
-- one and all else of the second.
pub record AtomicLaws {World Out : Type 0} (run_transaction : Exec World Out → Exec World Out)
    (rollback : World → World → World) : Type 0 where
  pub commits :
      (f : Exec World Out) (w : World) (a : Out) → (f w).0 ≡ ok a → run_transaction f w ≡ f w
  pub undoes :
      (f : Exec World Out) (w : World) (e : Exn)
      → (f w).0 ≡ raised e
      → run_transaction f w ≡ (raised e, rollback w (f w).1)

and_false : (b : Bool) → (b && false) ≡ false
and_false true = refl
and_false false = refl

open_to_all_lem :
    (user : Option Actor) (config : UseCaseConfiguration) (m : AuthorizationManager)
    → config.require_authentication ≡ false
    → (is_authorized user config none m).0 ≡ true
unfolding is_authorized
open_to_all_lem user config m h = rw h refl

handled :
    {S A : Type 0} (p : Outcome A × S) (k : Exn → Exec S A) {a : A}
    → p.0 ≡ ok a
    → handle p.0 k p.1 ≡ p
handled (ok b, s) k h = refl
handled (raised e, s) k h = cc

module _ {World In Out : Type 0} (run_transaction : Exec World Out → Exec World Out)
    (uc : UseCase World In Out) where
  -- A call that the authorization manager does not let through, be it that the user is missing, is
  -- not valid or lacks a role or a permission, runs no hook of the use case and changes nothing of the
  -- world, and it is answered by the error for unexpected failures, of status 500.
  pub refuses_unauthorized :
      (operation_id : String) (input : In) (user : Option Actor) (s : App World)
      → (is_authorized user uc.config none s.manager).0 ≡ false
      → ((execute run_transaction uc operation_id input user s).0 ≡ raised internal_error)
        × ((execute run_transaction uc operation_id input user s).1.world ≡ s.world)
  unfolding execute attempt before_execute handle_exception unauthenticated unauthorized
  refuses_unauthorized operation_id input none s no_way =
      elim (Bool-cases uc.config.require_authentication) [
        | inl asked ↦ rw asked (refl, ground arith)
        | inr open_to_all ↦ cc (no_way, open_to_all_lem none uc.config s.manager open_to_all)
      ]
  refuses_unauthorized operation_id input (some u) s no_way =
      rw (and_false uc.config.require_authentication, no_way) (refl, ground arith)

  module _ (rollback : World → World → World) (laws : AtomicLaws run_transaction rollback) where
    -- The main logic of a transactional use case whose body returns is the body. If the body raises,
    -- the database is put back, the body runs a second time outside of any transaction, and the
    -- second run decides.
    pub transaction_falls_back :
        (ctx : OperationContext In Out) (w : World)
        → uc.config.transactional ≡ true
        → ((a : Out)
            → (uc.on_execute ctx.input_data ctx.user ctx w).0 ≡ ok a
            → execute_main_logic run_transaction uc ctx w
              ≡ uc.on_execute ctx.input_data ctx.user ctx w)
          × ((e : Exn)
              → (uc.on_execute ctx.input_data ctx.user ctx w).0 ≡ raised e
              → execute_main_logic run_transaction uc ctx w
                ≡ uc.on_execute ctx.input_data ctx.user ctx
                    (rollback w (uc.on_execute ctx.input_data ctx.user ctx w).1))
    unfolding execute_main_logic
    transaction_falls_back ctx w t =
        let run = uc.on_execute ctx.input_data ctx.user ctx in
        (
          λ a returned. rw (t, laws.commits run w a returned) (handled _ (λ e. run) returned),
          λ e failed. rw (t, laws.undoes run w e failed) refl,
        )
