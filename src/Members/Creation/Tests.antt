-- ===== src/Members/Creation/Tests.antt =====
-- Creations of users of apps/tcc/usecase/usecases/users/user_create_uc.py, over a counter of users.
use taunggyi_city_church.Common.{
  ℕ, Option, suc, ◌≡◌, refl, Bool, true, false, ◌&&◌, none, some, [], ◌∷◌, String, str_eq, leb,
  if◌then◌else◌,
}
use taunggyi_city_church.Common.Exec.{Outcome, Exec, ok, raised, validation_error}
use taunggyi_city_church.UseCase.Errors.{validation_exception}
use taunggyi_city_church.Common.Dict.{insert, lookup}
use taunggyi_city_church.UseCase.Access.{is_authorized}
use taunggyi_city_church.UseCase.Base.{
  App, execute, attempt, before_execute, execute_main_logic, finalize_execution,
}
use taunggyi_city_church.Auth.Accounts.{collect_errors, add_field_error}
use taunggyi_city_church.Auth.Passwords.{Bcrypt, hash_password}
use taunggyi_city_church.Members.Creation.{
  check_input, validate_password, create_user, create_use_case, CreateInput, Created,
  CreateRepository, CreateWorld, validate_input, validate_admin, refused,
}
use taunggyi_city_church.Members.Creation.Answers.{may_create}

abbrev is_digit : ℕ → Bool
is_digit c = leb 48 c && leb c 57

abbrev is_alpha : ℕ → Bool
is_alpha c = leb 97 c && leb c 122

abbrev schema : CreateInput Unit → Outcome (CreateInput Unit)
schema input =
    if str_eq input.email ""
    then raised (validation_error (("email", "Field required") ∷ ("email", "bad") ∷ []))
    else ok input

abbrev no_bcrypt : Bcrypt
no_bcrypt = record { hashpw = λ draw password. ok "hashed"; checkpw = λ plain hashed. ok false }

-- one user is known by their email
abbrev counter : CreateRepository ℕ Unit
counter = record {
  get_by_email = λ email n. (
    ok (
        if str_eq email "ko@tcc.org"
        then some (record { id = 1; email = email; name = "Ko" })
        else none),
    n,
  );
  create =
      λ data_ n. (ok (some (record { id = suc n; email = data_.email; name = data_.name })), suc n);
}

abbrev with_password : String → String → CreateInput Unit
with_password email password = record {
  name = "Nang";
  email = email;
  password = password;
  rest = tt;
}

abbrev start : App (CreateWorld ℕ)
start = record {
  manager = record { permission_cache = λ k. none };
  world = record { users = 1; welcome = [] };
  log = [];
}

abbrev undo : CreateWorld ℕ → CreateWorld ℕ → CreateWorld ℕ
undo before after = record after { users = before.users }

abbrev settle : CreateWorld ℕ → Outcome Created × CreateWorld ℕ → Outcome Created × CreateWorld ℕ
settle before (ok a, after) = (ok a, after)
settle before (raised e, after) = (raised e, undo before after)

abbrev atomic : Exec (CreateWorld ℕ) Created → Exec (CreateWorld ℕ) Created
atomic f w = settle w (f w)

abbrev nang : Created
nang = record { id = 2; email = "nang@tcc.org"; name = "Nang" }

abbrev input : CreateInput Unit
input = with_password "nang@tcc.org" "lotus 2024"

abbrev no_email_of : CreateInput Unit → Option String
no_email_of input = some input.email

-- a repository that makes nobody
abbrev barren : CreateRepository ℕ Unit
barren = record counter { create = λ made n. (ok none, suc n) }

hashed : hash_password no_bcrypt 0 "lotus 2024" ≡ ok "hashed"
unfolding hash_password
hashed = refl

made_once :
    let (r, s) =
      execute atomic
        (create_use_case schema counter no_bcrypt 0 is_digit is_alpha no_email_of)
        "op"
        input
        none
        start in
    (r ≡ ok nang) × (s.world ≡ record { users = 2; welcome = ("nang@tcc.org", "Nang") ∷ [] })
unfolding execute attempt before_execute execute_main_logic is_authorized validate_input check_input
    validate_password create_user hash_password finalize_execution
made_once = (refl, refl)

allowed_passwords :
    (may_create is_digit is_alpha none "lotus 2024" ≡ true)
    × (may_create is_digit is_alpha none "lotus24" ≡ false)
    × (may_create is_digit is_alpha none "lotus lotus" ≡ false)
    × (may_create is_digit is_alpha (some nang) "lotus 2024" ≡ false)
allowed_passwords = (refl, refl, refl, refl)

-- the messages of the schema by their fields
no_email :
    validate_input schema counter no_bcrypt 0 is_digit is_alpha (with_password "" "x") (start.world)
    ≡ (
      raised (
          validation_exception "Invalid user data: Field required"
            (("email", "Field required" ∷ "bad" ∷ []) ∷ [])
            none),
      start.world,
    )
unfolding validate_input collect_errors add_field_error insert lookup
no_email = refl

no_admin :
    (validate_admin schema counter no_bcrypt 0 is_digit is_alpha input none (start.world)).0
    ≡ raised (
        refused "Unauthorized to create admin users"
          (some "You do not have permission to create admin users."))
unfolding validate_admin
no_admin = refl
