-- ===== src/Auth/Session.antt =====
-- `RefreshTokenUseCase`, `LogoutUseCase` and `VerifyTokenUseCase` of
-- apps/tcc/usecase/usecases/auth/refresh_uc.py, logout_uc.py and verify_uc.py.
use taunggyi_city_church.Common.{
  ℕ, Bool, true, false, not, Option, none, some, List, [], ◌∷◌, String, str_eq, or_else, is_empty,
  ◌==◌, if◌then◌else◌,
}
use taunggyi_city_church.Common.Exec.{
  Outcome, Exec, pure, raise, raise_if, ◌>>=◌, ◌>>◌, Exn, attribute_error, type_error, catch,
}
use taunggyi_city_church.Common.Chars.{strip}
use taunggyi_city_church.UseCase.Errors.{invalid_user_input}
use taunggyi_city_church.Auth.Accounts.{
  Account, UserRepository, AuthWorld, audit_login, revoke_token, on_users, on_tokens, create_task,
  roles_of, Form, field_of,
}

-- what a refresh token says
pub record RefreshClaims : Type 0 where
  pub user_id : ℕ
  pub jti : String

-- The methods of `jwt_service` that these use cases await; `verify_token` gives the user_id of the
-- payload, none where it has none.
pub record TokenService (Tokens : Type 0) : Type 0 where
  pub verify_refresh_token : String → Exec Tokens (Option RefreshClaims)
  pub is_token_blacklisted : ℕ → String → Exec Tokens Bool
  pub generate_access_token : ℕ → String → List String → Exec Tokens String
  pub verify_token : String → Exec Tokens (Option ℕ)

-- `JWTManager` of apps/core/jwt/jwt_backend.py, awaited: it lacks the first two methods, and the other
-- two return no coroutine.
abbrev pub jwt_manager : {Tokens : Type 0} → TokenService Tokens
jwt_manager = record {
  verify_refresh_token = λ token. raise attribute_error;
  is_token_blacklisted = λ id jti. raise attribute_error;
  generate_access_token = λ id email roles. raise type_error;
  verify_token = λ token. raise type_error;
}

-- `RefreshTokenUseCase._validate_input` before the schema
unfoldable pub check_refresh_form : {World : Type 0} → Form → Exec World Unit
check_refresh_form form = do
  raise_if (is_empty form) (
      invalid_user_input (("refresh_token", "Refresh token is required" ∷ []) ∷ [])
        "Please provide a refresh token.")
  raise_if (str_eq (strip (field_of "refresh_token" form)) "") (
      invalid_user_input (("refresh_token", "Refresh token is required" ∷ []) ∷ [])
        "Refresh token is required.")

abbrev pub invalid_refresh : Exn
invalid_refresh =
    invalid_user_input (("refresh_token", "Invalid refresh token" ∷ []) ∷ [])
      "Refresh token is invalid."

abbrev pub account_error : String → String → Exn
account_error problem message = invalid_user_input (("account", problem ∷ []) ∷ []) message

module _ (Input : Type 0) {Users Tokens : Type 0} (users : UserRepository Users)
    (service : TokenService Tokens) (context : Outcome (Unit {0})) where
  abbrev pub World : Type 0
  World = AuthWorld Users Tokens Input

  abbrev pub lift : {A : Type 0} → Outcome A → Exec World A
  lift r w = (r, w)

  abbrev pub demand_user : Option Account → Exec World Account
  demand_user none =
      raise (invalid_user_input (("user", "User not found" ∷ []) ∷ []) "User account not found.")
  demand_user (some a) = pure a

  -- the checks of an account that both use cases make
  abbrev pub demand_open : Account → Exec World Unit
  demand_open a = do
    raise_if (or_else a.is_locked false)
        (account_error "Account is locked" "Your account is locked. Please contact support.")
    raise_if (not (or_else a.is_active true))
        (account_error "Account is inactive" "Your account is inactive.")

  abbrev pub demand_claims : Option RefreshClaims → Exec World RefreshClaims
  demand_claims none = raise (
      invalid_user_input (("refresh_token", "Invalid or expired refresh token" ∷ []) ∷ [])
        "Refresh token is invalid or expired.")
  demand_claims (some claims) = pure claims

  -- the `try` of `RefreshTokenUseCase._on_execute`, which catches its own exception too
  unfoldable pub verified_claims : String → Exec World RefreshClaims
  verified_claims token =
      catch (do claims ← on_tokens (service.verify_refresh_token token); demand_claims claims)
        (λ e. raise invalid_refresh)

  -- `RefreshTokenUseCase._on_execute`
  unfoldable pub refresh : String → Exec World String
  unfolding verified_claims
  refresh token = do
    claims ← verified_claims token
    is_blacklisted ← on_tokens (service.is_token_blacklisted claims.user_id claims.jti)
    raise_if is_blacklisted (
        invalid_user_input (("refresh_token", "Token has been revoked" ∷ []) ∷ [])
          "Refresh token has been revoked. Please login again.")
    found ← on_users (users.get_by_id claims.user_id)
    a ← demand_user found
    demand_open a
    on_tokens (service.generate_access_token a.id a.email (roles_of a))

  abbrev pub revoke_if : Bool → String → ℕ → Exec World Unit
  revoke_if true token id = create_task (revoke_token token id)
  revoke_if false token id = pure tt

  -- `token_payload.get('user_id') == user.id`
  abbrev pub is_of : Option ℕ → ℕ → Bool
  is_of none id = false
  is_of (some owner) id = owner == id

  -- the `try` of `LogoutUseCase._on_execute`, of a token that is given
  unfoldable pub revoke_own : String → ℕ → Exec World Unit
  revoke_own token id =
      catch (do owner ← on_tokens (service.verify_token token); revoke_if (is_of owner id) token id)
        (λ e. pure tt)

  abbrev pub revoke_given : Option String → ℕ → Exec World Unit
  revoke_given none id = pure tt
  revoke_given (some token) id = if str_eq token "" then pure tt else revoke_own token id

  -- `LogoutUseCase._on_execute`
  unfoldable pub logout : Option String → Account → Exec World Unit
  unfolding revoke_own
  logout token user = do
    lift context
    revoke_given token user.id
    create_task (audit_login user.id "LOGOUT")

  abbrev pub the_user : Option Account → Exec World Account
  the_user none = raise (
      invalid_user_input (("token", "Invalid or missing token" ∷ []) ∷ [])
        "Authentication required.")
  the_user (some a) = pure a

  -- `VerifyTokenUseCase._on_execute`, up to its response
  unfoldable pub verify : Option Account → Exec World Account
  verify user = do
    u ← the_user user
    found ← on_users (users.get_by_id u.id)
    a ← demand_user found
    demand_open a
    pure a
