-- ===== src/Common/Exec.antt =====
-- Methods that change an object and may raise. What was written before a raise stays written, so
-- the state comes back beside the exception too.
use mathlib.Core.Bool.{Bool, true, false}
use mathlib.Core.List.{List}
use mathlib.Core.Logic.{◌⊎◌, inl, inr}
use mathlib.Core.Path.{◌≡◌, refl}
use Prim.Native.Nat.{ℕ}
use Prim.Native.String.{String}

-- What an exception of the application tells: `BaseAppException`, with the errors of the fields from
-- its details. Its other details, its context, cause, id and time are not modelled.
pub record AppError : Type 0 where
  pub class_name : String
  pub message : String
  pub error_code : String
  pub status_code : ℕ
  pub user_message : String
  pub field_errors : List (String × List String)

-- The classes of exceptions that the modelled code tells apart. `connection_error` and
-- `redis_error` are those of redis.exceptions, the first a subclass of the second. `domain` stands for
-- DomainException and its subclasses, `invalid_auth_input` for InvalidAuthInputException and
-- `app_error` for the other classes below BaseAppException. `integrity_error`, `data_error` and
-- `database_error` are those of django.db, with their texts: the first two are subclasses of the last.
-- `validation_error` is that of pydantic, with a field and a message for each error.
pub data Exn : Type 0 where
  connection_error redis_error : Exn
  value_error runtime_error attribute_error type_error key_error : Exn
  expired_signature invalid_token : Exn
  clock_drift : Exn
  domain invalid_auth_input app_error : AppError → Exn
  integrity_error data_error database_error : String → Exn
  validation_error : List (String × String) → Exn
  other_error : Exn

pub data Outcome {ℓ} (A : Type ℓ) : Type ℓ where
  ok : A → Outcome A
  raised : Exn → Outcome A

pub Outcome-cases :
    {A : Type 0} (r : Outcome A) → ((a : A) × (r ≡ ok a)) ⊎ ((e : Exn) × (r ≡ raised e))
Outcome-cases (ok a) = inl (a, refl)
Outcome-cases (raised e) = inr (e, refl)

abbrev pub Exec {ℓ} : Type ℓ → Type ℓ → Type ℓ
Exec S A = S → Outcome A × S

module _ {ℓ} {S A : Type ℓ} where
  abbrev pub pure : A → Exec S A
  pure a s = (ok a, s)

  abbrev pub raise : Exn → Exec S A
  raise e s = (raised e, s)

  abbrev pub gets : (S → A) → Exec S A
  gets f s = (ok (f s), s)

  abbrev pub handle : Outcome A → (Exn → Exec S A) → Exec S A
  handle (ok a) k s = (ok a, s)
  handle (raised e) k s = k e s

  -- `try: m` with `except Exception as e: k(e)`
  abbrev pub catch : Exec S A → (Exn → Exec S A) → Exec S A
  catch m k s = let (r, s') = m s in handle r k s'

module _ {ℓ} {S A B : Type ℓ} where
  abbrev pub continue : Outcome A → (A → Exec S B) → Exec S B
  continue (ok a) f s = f a s
  continue (raised e) f s = (raised e, s)

  infixl 10 ◌>>=◌ ◌>>◌
  abbrev pub ◌>>=◌ : Exec S A → (A → Exec S B) → Exec S B
  ◌>>=◌ m f s = let (r, s') = m s in continue r f s'

  abbrev pub ◌>>◌ : Exec S A → Exec S B → Exec S B
  m >> n = m >>= λ _. n

abbrev pub modify : {S : Type 0} → (S → S) → Exec S (Unit {0})
modify f s = (ok tt, f s)

-- `if b: raise e`
abbrev pub raise_if : {S : Type 0} → Bool → Exn → Exec S (Unit {0})
raise_if true e s = (raised e, s)
raise_if false e s = (ok tt, s)
