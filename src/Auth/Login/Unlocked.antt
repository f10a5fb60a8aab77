-- ===== src/Auth/Login/Unlocked.antt =====
-- `LoginUseCase` (apps/tcc/usecase/usecases/auth/login_uc.py) over the repository of
-- apps/tcc/usecase/repo/domain_repo/user_repo.py.
use taunggyi_city_church.Common.{ℕ, zero, suc, ◌≡◌, refl, ap, ◌∙◌, Bool, true, false, some, String}
use taunggyi_city_church.Common.Exec.{Exec, raised}
use taunggyi_city_church.Auth.Accounts.{JwtService, AuthWorld}
use taunggyi_city_church.Auth.Users.{UserRow, UserTable, to_account, user_repository}
use taunggyi_city_church.Auth.Passwords.{Bcrypt, verify_password}
use taunggyi_city_church.Auth.Login.{
  LoginInput, EmailCheck, login, complete_login, track_failed_login, invalid_credentials,
}

-- the state after a number of calls, whatever they answer
abbrev pub repeated {ℓ} : {S A : Type ℓ} → ℕ → Exec S A → S → S
repeated zero call s = s
repeated (suc n) call s = (call (repeated n call s)).1

module _ {Database Tokens : Type 0} (table : UserTable Database) (jwt : JwtService Tokens)
    (bcrypt : Bcrypt) (email_str : String → EmailCheck) (str_id : ℕ → String)
    (has_auth_service : Bool) where
  failure_forgotten :
      (input : LoginInput) (row : UserRow) (w : AuthWorld Database Tokens LoginInput)
      → table.first_by_email input.email w.users ≡ some row
      → row.is_active ≡ true
      → verify_password bcrypt input.password (some row.password) ≡ false
      → login (user_repository table) jwt bcrypt email_str str_id has_auth_service input w
        ≡ (raised invalid_credentials, w)
  unfolding login track_failed_login user_repository
  failure_forgotten input row w found active wrong = rw (found, active, wrong) refl

  failures_forgotten :
      (n : ℕ) (input : LoginInput) (row : UserRow) (w : AuthWorld Database Tokens LoginInput)
      → table.first_by_email input.email w.users ≡ some row
      → row.is_active ≡ true
      → verify_password bcrypt input.password (some row.password) ≡ false
      → repeated n
          (login (user_repository table) jwt bcrypt email_str str_id has_auth_service input)
          w
        ≡ w
  failures_forgotten zero input row w found active wrong = refl
  failures_forgotten (suc n) input row w found active wrong =
      let run = login (user_repository table) jwt bcrypt email_str str_id has_auth_service input in
      ap (λ v. (run v).1) (failures_forgotten n input row w found active wrong)
      ∙ ap (λ r. r.1) (failure_forgotten input row w found active wrong)

  right_password :
      (input : LoginInput) (row : UserRow) (w : AuthWorld Database Tokens LoginInput)
      → table.first_by_email input.email w.users ≡ some row
      → row.is_active ≡ true
      → verify_password bcrypt input.password (some row.password) ≡ true
      → login (user_repository table) jwt bcrypt email_str str_id has_auth_service input w
        ≡ complete_login
            (user_repository table)
            jwt
            bcrypt
            email_str
            str_id
            has_auth_service
            (to_account true row)
            w
  unfolding login user_repository
  right_password input row w found active right = rw (found, active, right) refl

  -- Over the repository of the program, for an active user: wrong passwords change nothing at all,
  -- however many there are, so that a login with a password that verifies goes on after them as if
  -- there had been none.
  pub never_locked :
      (n : ℕ) (input other : LoginInput) (row : UserRow) (w : AuthWorld Database Tokens LoginInput)
      → table.first_by_email input.email w.users ≡ some row
      → row.is_active ≡ true
      → verify_password bcrypt input.password (some row.password) ≡ false
      → other.email ≡ input.email
      → verify_password bcrypt other.password (some row.password) ≡ true
      → let run = login (user_repository table) jwt bcrypt email_str str_id has_auth_service in
        (repeated n (run input) w ≡ w)
        × (run other (repeated n (run input) w)
            ≡ complete_login
                (user_repository table)
                jwt
                bcrypt
                email_str
                str_id
                has_auth_service
                (to_account true row)
                w)
  never_locked n input other row w found active wrong same right =
      let kept = failures_forgotten n input row w found active wrong in
      (
        kept,
        ap (login (user_repository table) jwt bcrypt email_str str_id has_auth_service other) kept
            ∙ right_password other row w (ap (λ e. table.first_by_email e w.users) same ∙ found)
                active right,
      )
