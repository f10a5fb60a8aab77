-- ===== src/Auth/Passwords.antt =====
-- `PasswordService` of apps/tcc/usecase/usecases/base/password_service.py. bcrypt, the source of
-- random characters and the classes of Unicode characters are parameters.
pub mod Strength
use taunggyi_city_church.Common.{
  ℕ, Bool, true, false, not, ◌||◌, Option, none, some, List, [], ◌∷◌, ◌++◌, String, str_eq, length,
  any, is_empty, ltb, ◌==◌, if◌then◌else◌,
}
use taunggyi_city_church.Common.Exec.{Outcome, ok, raised, value_error}
use taunggyi_city_church.Common.Chars.{codes, join}

-- `gensalt` and `hashpw` together, of the number of the draw, and `checkpw`
pub record Bcrypt : Type 0 where
  pub hashpw : ℕ → String → Outcome String
  pub checkpw : String → String → Outcome Bool

-- `str.isupper`, `str.islower` and `str.isdigit` of one character, by its code point
pub record Unicode : Type 0 where
  pub is_upper : ℕ → Bool
  pub is_lower : ℕ → Bool
  pub is_digit : ℕ → Bool

-- `hash_password`
unfoldable pub hash_password : Bcrypt → ℕ → String → Outcome String
hash_password bcrypt draw password = elim (bcrypt.hashpw draw password) [
  | ok hashed ↦ ok hashed
  | raised e ↦ raised value_error
]

abbrev pub answer_or_no : Outcome Bool → Bool
answer_or_no (ok b) = b
answer_or_no (raised e) = false

-- `verify_password`; a hash that is missing is none
unfoldable pub verify_password : Bcrypt → String → Option String → Bool
verify_password bcrypt plain_password none = false
verify_password bcrypt plain_password (some hashed_password) =
    if str_eq plain_password "" || str_eq hashed_password ""
    then false
    else answer_or_no (bcrypt.checkpw plain_password hashed_password)

abbrev pub special_characters : String
special_characters = "!@#$%^&*()_+-=[]{}|;:,.<>?"

abbrev pub note : Bool → String → List String
note true text = []
note false text = text ∷ []

-- the list `errors` of `is_password_strong`
unfoldable pub strength_errors : Unicode → String → List String
strength_errors u password =
    let cs = codes password in
    note (not (ltb (length cs) 8)) "Password must be at least 8 characters long"
    ++ (note (any u.is_upper cs) "Password must contain at least one uppercase letter"
        ++ (note (any u.is_lower cs) "Password must contain at least one lowercase letter"
            ++ (note (any u.is_digit cs) "Password must contain at least one number"
                ++ note (any (λ c. any (λ k. k == c) (codes special_characters)) cs)
                    "Password must contain at least one special character")))

-- `is_password_strong`
unfoldable pub is_password_strong : Unicode → String → Bool × Option String
unfolding strength_errors join
is_password_strong u password =
    let errors = strength_errors u password in
    (is_empty errors, if is_empty errors then none else some (join ", " errors))
