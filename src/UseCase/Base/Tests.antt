-- ===== src/UseCase/Base/Tests.antt =====
-- A use case that counts, run by `execute` of apps/tcc/usecase/usecases/base/base_uc.py.
use taunggyi_city_church.Common.{
  ℕ, ◌+◌, ◌≡◌, refl, true, false, Option, none, some, [], ◌∷◌, ◌++◌, ltb, if◌then◌else◌,
}
use taunggyi_city_church.Common.Exec.{
  Outcome, Exec, Exn, ok, raised, connection_error, integrity_error,
}
use taunggyi_city_church.UseCase.Access.{Actor, default_configuration, is_authorized}
use taunggyi_city_church.Common.Chars.{mentions}
use taunggyi_city_church.UseCase.Errors.{user_already_exists}
use taunggyi_city_church.UseCase.Base.{
  UseCase, App, OperationContext, execute, execute_main_logic, internal_error, handle_exception,
}
use taunggyi_city_church.UseCase.Base.Outcomes.{Answers, entry_of, execute_reports}
use taunggyi_city_church.UseCase.Base.Guards.{
  AtomicLaws, refuses_unauthorized, transaction_falls_back,
}

-- two counters, the first one in the database
pub record Counters : Type 0 where
  pub stored : ℕ
  pub sent : ℕ

abbrev counting : UseCase Counters ℕ ℕ
counting = record {
  class_name = "CreateUserUseCase";
  config = default_configuration;
  email_of = λ input. some "a@b.mm";
  validate_input = λ input ctx w. (ok tt, w);
  on_execute = λ input user ctx w. (
    if ltb w.sent input then raised connection_error else ok w.stored,
    record { stored = w.stored + 1; sent = w.sent + 1 },
  );
  validate_output = λ output ctx w. (ok tt, w);
}

abbrev undo : Counters → Counters → Counters
undo before after = record after { stored = before.stored }

abbrev settle : {Out : Type 0} → Counters → Outcome Out × Counters → Outcome Out × Counters
settle before (ok a, after) = (ok a, after)
settle before (raised e, after) = (raised e, undo before after)

abbrev atomic : {Out : Type 0} → Exec Counters Out → Exec Counters Out
atomic f w = settle w (f w)

settle_ok :
    {Out : Type 0} (w : Counters) (p : Outcome Out × Counters) (a : Out)
    → p.0 ≡ ok a
    → settle w p ≡ p
settle_ok w (ok b, after) a h = refl
settle_ok w (raised e, after) a h = cc

settle_raised :
    {Out : Type 0} (w : Counters) (p : Outcome Out × Counters) (e : Exn)
    → p.0 ≡ raised e
    → settle w p ≡ (raised e, undo w p.1)
settle_raised w (ok b, after) e h = cc
settle_raised w (raised e', after) e h = cc

atomic_laws : {Out : Type 0} → AtomicLaws (atomic {Out = Out}) undo
atomic_laws = record {
  commits = λ f w a h. settle_ok w (f w) a h;
  undoes = λ f w e h. settle_raised w (f w) e h;
}

abbrev start : App Counters
start = record {
  manager = record { permission_cache = λ k. none };
  world = record { stored = 0; sent = 0 };
  log = [];
}

abbrev someone : Option Actor
someone = some (record {
  id = 3;
  is_active = some true;
  is_authenticated = none;
  is_superuser = none;
  role = none;
  get_permissions = none;
  department_id = none;
})

execute_reports_example :
    Answers (execute atomic counting "op" 5 someone start).0
    × ((execute atomic counting "op" 5 someone start).1.log ≡ (
        []
        ++ (if true
            then entry_of atomic counting "op" someone
                (execute atomic counting "op" 5 someone start).0
              ∷ []
            else [])))
execute_reports_example = execute_reports atomic counting "op" 5 someone start

nobody_refused : (is_authorized none default_configuration none start.manager).0 ≡ false
unfolding is_authorized
nobody_refused = refl

refuses_unauthorized_example :
    ((execute atomic counting "op" 5 none start).0 ≡ raised internal_error)
    × ((execute atomic counting "op" 5 none start).1.world ≡ record { stored = 0; sent = 0 })
refuses_unauthorized_example = refuses_unauthorized atomic counting "op" 5 none start nobody_refused

abbrev context : OperationContext ℕ ℕ
context = record {
  operation_id = "op";
  user = someone;
  input_data = 1;
  output_data = none;
  error = none;
}

transaction_falls_back_example :
    ((a : ℕ)
      → (counting.on_execute 1 someone context start.world).0 ≡ ok a
      → execute_main_logic atomic counting context start.world
        ≡ counting.on_execute 1 someone context start.world)
    × ((e : Exn)
        → (counting.on_execute 1 someone context start.world).0 ≡ raised e
        → execute_main_logic atomic counting context start.world
          ≡ counting.on_execute 1 someone context
              (undo start.world (counting.on_execute 1 someone context start.world).1))
transaction_falls_back_example =
    transaction_falls_back atomic counting undo atomic_laws context start.world refl

-- The second run finds the database as it was and the rest as the first run left it.
run_twice :
    execute_main_logic atomic counting context start.world ≡ (ok 0, record { stored = 1; sent = 2 })
unfolding execute_main_logic
run_twice = refl

double_user :
    handle_exception "CreateUserUseCase"
      (some "a@b.mm")
      (integrity_error "UNIQUE constraint failed")
    ≡ user_already_exists (some "a@b.mm")
unfolding handle_exception mentions
double_user = refl
