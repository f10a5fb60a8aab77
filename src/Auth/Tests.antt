-- ===== src/Auth/Tests.antt =====
-- Runs of the use cases of apps/tcc/usecase/usecases/auth over a table of one row.
use taunggyi_city_church.Common.{
  ℕ, ◌≡◌, refl, true, false, none, some, [], ◌∷◌, String, str_eq, leb, ◌&&◌,
}
use taunggyi_city_church.Common.Exec.{Outcome, Exn, ok, raised}
use taunggyi_city_church.Auth.Accounts.{Account, JwtService, AuthWorld}
use taunggyi_city_church.Auth.Users.{UserRow, UserTable, to_account, user_repository}
use taunggyi_city_church.Auth.Passwords.{Bcrypt, Unicode, verify_password, is_password_strong}
use taunggyi_city_church.Auth.Login.{
  LoginInput, EmailCheck, valid, login, LoginResponse, login_schema, invalid_credentials,
  complete_login,
}
use taunggyi_city_church.Auth.Login.Unlocked.{never_locked, repeated}
use taunggyi_city_church.Common.Dict.{lookup}
use taunggyi_city_church.UseCase.Access.{Actor}
use taunggyi_city_church.UseCase.Base.{App, execute, internal_error}
use taunggyi_city_church.Auth.Recovery.{ChangeInput, ResetInput, reject_missing, missing_fields}
use taunggyi_city_church.Auth.Requests.{reset_use_case, validate_form}
use taunggyi_city_church.Auth.Requests.Breaking.{validation}
use taunggyi_city_church.Common.Chars.{strip}
use taunggyi_city_church.Auth.Requests.SignIn.{sign_in, IsComplete, refusal, kept as sign_in_kept}
use taunggyi_city_church.Auth.Requests.Failures.{Transactions, kept, recovery-Fails}
use taunggyi_city_church.Auth.Accounts.{Form}
use taunggyi_city_church.UseCase.Base.{UseCase}

-- bcrypt with hashes that are the passwords
abbrev plain : Bcrypt
plain = record { hashpw = λ draw s. ok s; checkpw = λ s hash. ok (str_eq s hash) }

abbrev ascii : Unicode
ascii = record {
  is_upper = λ c. leb 65 c && leb c 90;
  is_lower = λ c. leb 97 c && leb c 122;
  is_digit = λ c. leb 48 c && leb c 57;
}

abbrev tokens : JwtService ℕ
tokens = record {
  generate_access_token = λ id email roles n. (ok "access", n);
  generate_refresh_token = λ id email n. (ok "refresh", n);
}

abbrev any_email : String → EmailCheck
any_email s = valid s

abbrev id_text : ℕ → String
id_text i = "1"

abbrev row : UserRow
row = record {
  id = 1;
  email = "a@b.mm";
  name = "Ko";
  password = "Sunday-1";
  role = "member";
  status = "active";
  is_active = true;
}

abbrev wrong_input : LoginInput
wrong_input = record { email = "a@b.mm"; password = "guess" }

abbrev right_input : LoginInput
right_input = record { email = "a@b.mm"; password = "Sunday-1" }

wrong_password : verify_password plain "guess" (some "Sunday-1") ≡ false
unfolding verify_password
wrong_password = refl

right_password : verify_password plain "Sunday-1" (some "Sunday-1") ≡ true
unfolding verify_password
right_password = refl

abbrev one_row : UserTable ℕ
one_row = record { first_by_id = λ i n. some row; first_by_email = λ email n. some row }

abbrev row_world : AuthWorld ℕ ℕ LoginInput
row_world = record { users = 0; tokens = 0; tasks = []; validated_input = none }

never_locked_example :
    (repeated 6
        (login (user_repository one_row) tokens plain any_email id_text true wrong_input)
        row_world
      ≡ row_world)
    × (login (user_repository one_row) tokens plain any_email id_text true right_input (
          repeated 6
            (login (user_repository one_row) tokens plain any_email id_text true wrong_input)
            row_world)
        ≡ complete_login
            (user_repository one_row)
            tokens
            plain
            any_email
            id_text
            true
            (to_account true row)
            row_world)
never_locked_example =
    never_locked one_row tokens plain any_email id_text true 6 wrong_input right_input row row_world
      refl refl wrong_password refl right_password

too_weak : is_password_strong ascii "monday22" ≡ (
  false,
  some
      "Password must contain at least one uppercase letter, Password must contain at least one special character",
)
unfolding is_password_strong
too_weak = refl

-- A transaction that puts the users back where its body raises.
abbrev undo : {Input : Type 0} → AuthWorld ℕ ℕ Input → AuthWorld ℕ ℕ Input → AuthWorld ℕ ℕ Input
undo before after = record after { users = before.users }

abbrev settle :
    {Input Out : Type 0}
    → AuthWorld ℕ ℕ Input
    → Outcome Out × AuthWorld ℕ ℕ Input
    → Outcome Out × AuthWorld ℕ ℕ Input
settle before (ok a, after) = (ok a, after)
settle before (raised e, after) = (raised e, undo before after)

settle_ok :
    {Input Out : Type 0} (w : AuthWorld ℕ ℕ Input) (p : Outcome Out × AuthWorld ℕ ℕ Input) (a : Out)
    → p.0 ≡ ok a
    → settle w p ≡ p
settle_ok w (ok b, after) a h = refl
settle_ok w (raised e, after) a h = cc

settle_raised :
    {Input Out : Type 0} (w : AuthWorld ℕ ℕ Input) (p : Outcome Out × AuthWorld ℕ ℕ Input) (e : Exn)
    → p.0 ≡ raised e
    → settle w p ≡ (raised e, undo w p.1)
settle_raised w (ok b, after) e h = cc
settle_raised w (raised e', after) e h = cc

abbrev database : Transactions ℕ ℕ
database = record {
  run = λ f w. settle w (f w);
  rollback = undo;
  atomic = record {
    commits = λ f w a h. settle_ok w (f w) a h;
    undoes = λ f w e h. settle_raised w (f w) e h;
  };
  nothing_undone = λ w. refl;
}

-- what the schemas of pydantic make of any form
abbrev new_input : ResetInput
new_input = record { token = "t"; new_password = "Monday-22" }

abbrev change_input : ChangeInput
change_input = record { current_password = "Sunday-1"; new_password = "Monday-22" }

abbrev an_account : Actor → Account
an_account u = to_account true row

abbrev reset_uc : UseCase (AuthWorld ℕ ℕ ResetInput) Form Unit
reset_uc =
    reset_use_case (user_repository one_row) plain ascii 0 (λ s. s) an_account (ok tt)
      (λ form. ok new_input)

abbrev reset_form : Form
reset_form = ("token", "t") ∷ ("new_password", "Monday-22") ∷ ("confirm_password", "Monday-22") ∷ []

abbrev reset_start : App (AuthWorld ℕ ℕ ResetInput)
reset_start = record {
  manager = record { permission_cache = λ k. none };
  world = record { users = 0; tokens = 0; tasks = []; validated_input = none };
  log = [];
}

abbrev reset_run : Outcome (Unit {0}) × App (AuthWorld ℕ ℕ ResetInput)
reset_run = execute (Transactions.run database) reset_uc "op-1" reset_form none reset_start

recovery-Fails_example :
    (e : Exn) × (reset_run.0 ≡ raised e)
    × (kept ℕ ℕ ResetInput reset_run.1.world ≡ (0, 0, []))
    × ((validation
            (Transactions.run database)
            (Transactions.rollback database)
            (Transactions.atomic database)
            (Transactions.nothing_undone database)
            reset_uc
            reset_form
            none
            "op-1"
            reset_start.world).0
          ≡ ok tt
        → e ≡ internal_error)
recovery-Fails_example =
    (recovery-Fails database (user_repository one_row) plain ascii 0 (λ s. s) an_account (ok tt)
        (λ form. ok change_input) (λ form. ok new_input) (λ form. ok "a@b.mm") (λ form. ok none)).1
      "op-1" reset_form none reset_start

reset_is_valid :
    (validation
      (Transactions.run database)
      (Transactions.rollback database)
      (Transactions.atomic database)
      (Transactions.nothing_undone database)
      reset_uc
      reset_form
      none
      "op-1"
      reset_start.world).0
    ≡ ok tt
unfolding reject_missing missing_fields validate_form lookup
reset_is_valid = refl

abbrev login_form : Form
login_form = ("email", "a@b.mm") ∷ ("password", "guess") ∷ []

abbrev login_start : App (AuthWorld ℕ ℕ LoginInput)
login_start = record {
  manager = record { permission_cache = λ k. none };
  world = row_world;
  log = [];
}

abbrev sign_in_run : Outcome LoginResponse × App (AuthWorld ℕ ℕ LoginInput)
sign_in_run =
    sign_in one_row tokens plain any_email id_text true (λ f. f) "op-1" login_form none login_start

guess-IsComplete :
    IsComplete one_row tokens plain any_email id_text true (λ f. f) login_form wrong_input
unfolding lookup login_schema strip
guess-IsComplete = record { given = refl; with_email = refl; with_password = refl; accepted = refl }

guess_is_refused :
    refusal one_row tokens plain any_email id_text true (λ f. f) wrong_input (some row)
    ≡ some invalid_credentials
guess_is_refused = rw wrong_password refl
