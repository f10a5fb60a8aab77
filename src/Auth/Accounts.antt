-- ===== src/Auth/Accounts.antt =====
-- The users, tokens and tasks that the authentication use cases of
-- apps/tcc/usecase/usecases/auth act on. Times are not modelled.
use taunggyi_city_church.Common.{ℕ, Bool, Option, none, some, List, [], ◌∷◌, ◌++◌, String, or_else}
use taunggyi_city_church.Common.Exec.{Exec, ok}
use taunggyi_city_church.Common.Dict.{Dict, lookup, insert}

-- What the use cases read of a user entity; an attribute that it may lack is none there. Of the
-- lock_reason the inner none is Python's None.
pub record Account : Type 0 where
  pub id : ℕ
  pub email : String
  pub name : String
  pub password_hash : Option String
  pub password_history : Option (List String)
  pub role : Option String
  pub roles : Option (List String)
  pub status : Option String
  pub is_active : Option Bool
  pub is_locked : Option Bool
  pub lock_reason : Option (Option String)
  pub failed_login_attempts : Option ℕ
  pub login_count : Option ℕ
  pub requires_password_change : Option Bool

-- an entry of the dict that `update` of the repository is given; those of times have no value here
pub data Change : Type 0 where
  set_password_hash : String → Change
  set_is_locked : Bool → Change
  set_lock_reason : Option String → Change
  set_failed_login_attempts : ℕ → Change
  set_login_count : ℕ → Change
  set_requires_password_change : Bool → Change
  set_last_login set_last_password_change : Change

-- `UserRepository` as the use cases call it
pub record UserRepository (Users : Type 0) : Type 0 where
  pub get_by_id : ℕ → Exec Users (Option Account)
  pub get_by_email : String → Bool → Exec Users (Option Account)
  pub update : ℕ → List Change → Exec Users (Option Account)

-- the part of `JWTManager` that they call
pub record JwtService (Tokens : Type 0) : Type 0 where
  pub generate_access_token : ℕ → String → List String → Exec Tokens String
  pub generate_refresh_token : ℕ → String → Exec Tokens String

-- what `asyncio.create_task` was given
pub data Task : Type 0 where
  audit_login : ℕ → String → Task
  revoke_token : String → ℕ → Task
  send_password_reset_email : ℕ → String → Task

-- `Input` is the schema that `validated_input` holds once `_validate_input` has set it.
pub record AuthWorld (Users Tokens Input : Type 0) : Type 0 where
  pub users : Users
  pub tokens : Tokens
  pub tasks : List Task
  pub validated_input : Option Input

module _ {Users Tokens Input : Type 0} where
  abbrev pub on_users : {A : Type 0} → Exec Users A → Exec (AuthWorld Users Tokens Input) A
  on_users f w = let (r, u) = f w.users in (r, record w { users = u })

  abbrev pub on_tokens : {A : Type 0} → Exec Tokens A → Exec (AuthWorld Users Tokens Input) A
  on_tokens f w = let (r, t) = f w.tokens in (r, record w { tokens = t })

  abbrev pub create_task : Task → Exec (AuthWorld Users Tokens Input) Unit
  create_task t w = (ok tt, record w { tasks = w.tasks ++ t ∷ [] })

-- `getattr(user, "roles", [])`, or else the one role
unfoldable pub roles_of : Account → List String
roles_of a = elim (or_else a.roles []) [
  | [] ↦ elim a.role [ none ↦ [] | some role ↦ role ∷ [] ]
  | (r ∷ rest) ↦ r ∷ rest
]

-- The errors of pydantic by their fields, in the order in which the fields come up.
unfoldable pub add_field_error : String → String → Dict (List String) → Dict (List String)
add_field_error field msg found = insert field (or_else (lookup field found) [] ++ msg ∷ []) found

unfoldable pub collect_errors : List (String × String) → Dict (List String) → Dict (List String)
unfolding add_field_error
collect_errors [] found = found
collect_errors ((field, msg) ∷ rest) found = collect_errors rest (add_field_error field msg found)

-- The form of a request: its fields that are texts.
abbrev pub Form : Type 0
Form = Dict String

-- `data.get(field, "")`
abbrev pub field_of : String → Form → String
field_of field form = or_else (lookup field form) ""
