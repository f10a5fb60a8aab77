-- ===== src/Members/Creation/Answers.antt =====
-- What a creation of a user checks and answers: apps/tcc/usecase/usecases/users/user_create_uc.py.
use taunggyi_city_church.Common.{
  ℕ, ◌≡◌, Bool, true, false, not, ◌&&◌, Option, none, some, List, [], ◌∷◌, String, is_some, any,
  length, ltb,
}
use taunggyi_city_church.Common.Exec.{Outcome, Exec, ok, raised, Exn, AppError, domain}
use taunggyi_city_church.Common.Chars.{codes}
use taunggyi_city_church.Auth.Passwords.{Bcrypt}
use taunggyi_city_church.UseCase.Access.{Actor}
use taunggyi_city_church.UseCase.Base.{UseCase, App, OperationContext, execute}
use taunggyi_city_church.UseCase.Base.Guards.{AtomicLaws}
use taunggyi_city_church.Members.Creation.{
  CreateInput, Created, CreateRepository, CreateWorld, create_use_case, user_data,
}

-- nobody has the email, and the password has 8 characters, with a digit and a letter among them
abbrev pub may_create : (ℕ → Bool) → (ℕ → Bool) → Option Created → String → Bool
may_create is_digit is_alpha found password =
    not (is_some found)
    && (not (ltb (length (codes password)) 8)
        && (any is_digit (codes password) && any is_alpha (codes password)))

-- whether the repository answered that nobody was made, or raised
abbrev pub is_failure : Outcome (Option Created) → Bool
is_failure (ok (some u)) = false
is_failure _ = true

abbrev made_or : Created → Outcome (Option Created) → Created
made_or other (ok (some u)) = u
made_or other _ = other

-- what a DomainException tells
abbrev app_of : Exn → AppError
app_of (domain e) = e
app_of _ = record {
  class_name = "";
  message = "";
  error_code = "";
  status_code = 0;
  user_message = "";
  field_errors = [];
}

module _ {S Rest Raw : Type 0} (schema : Raw → Outcome (CreateInput Rest))
    (repository : CreateRepository S Rest) (bcrypt : Bcrypt) (draw : ℕ)
    (is_digit is_alpha : ℕ → Bool) where
  module _ (run_transaction : Exec (CreateWorld S) Created → Exec (CreateWorld S) Created)
      (rollback : CreateWorld S → CreateWorld S → CreateWorld S)
      (atomic : AtomicLaws run_transaction rollback) (email_of : Raw → Option String)
      (operation_id : String) (raw : Raw) (user : Option Actor) (s : App (CreateWorld S)) where
    abbrev pub use_case : UseCase (CreateWorld S) Raw Created
    use_case = create_use_case schema repository bcrypt draw is_digit is_alpha email_of

    -- the use case, run by `execute`
    abbrev pub creation : Outcome Created × App (CreateWorld S)
    creation = execute run_transaction use_case operation_id raw user s

    abbrev context : OperationContext Raw Created
    context = record {
      operation_id = operation_id;
      user = user;
      input_data = raw;
      output_data = none;
      error = none;
    }

    abbrev pub Raises : CreateWorld S → Type 0
    Raises w = (e : AppError) × (creation.0 ≡ raised (domain e)) × (creation.1.world ≡ w)

    abbrev pub Gives : Created → S → List (String × String) → Type 0
    Gives u users welcome =
        (creation.0 ≡ ok u)
        × (creation.1.world ≡ record { users = users; welcome = (u.email, u.name) ∷ welcome })

    abbrev pub looked : S → CreateWorld S
    looked s1 = record (s.world) { users = s1 }

    -- the world after a first attempt that failed, as the end of its transaction leaves it
    abbrev pub undone : S → S → CreateWorld S
    undone s1 s2 = rollback (looked s1) (record (looked s1) { users = s2 })

    abbrev pub ask : CreateInput Rest → String → S → Outcome (Option Created) × S
    ask input hashed =
        repository.create (user_data schema repository bcrypt draw is_digit is_alpha input hashed)
