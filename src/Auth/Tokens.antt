-- ===== src/Auth/Tokens.antt =====
-- `JWTAuthService` of apps/tcc/usecase/usecases/auth/jwt_uc.py. PyJWT, the source of random texts, the
-- texts of ids and Django's cache are parameters; the process runs in UTC.
pub mod Lifetimes
mod Tests
use taunggyi_city_church.Common.{
  ℕ, zero, suc, ◌+◌, ◌*◌, ◌/◌, Bool, true, false, not, ◌&&◌, ◌||◌, Option, none, some, List, [],
  ◌∷◌, String, str_eq, ltb, or_else, ◌==◌, if◌then◌else◌,
}
use taunggyi_city_church.Common.Exec.{
  Outcome, Exec, ok, raised, Exn, pure, raise, catch, ◌>>=◌, ◌>>◌, key_error, expired_signature,
  invalid_token,
}
use taunggyi_city_church.Common.Text.{◌:::◌}
use taunggyi_city_church.Cache.Api.{CacheApi}
use taunggyi_city_church.Cache.Breaker.{ticks}

-- the claims of a token; any may be missing in one that was not made here
pub record Claims : Type 0 where
  pub user_id : Option ℕ
  pub email : Option String
  pub token_type : Option String
  pub exp : Option ℕ
  pub iat : Option ℕ
  pub roles : Option (List String)
  pub jti : Option String

-- `jwt.encode` and `jwt.decode` with HS256 and a secret, the second at a time; `jwt.decode` without
-- a check of the signature; and `secrets.token_hex(16)` by the number of earlier draws.
pub record PyJwt : Type 0 where
  pub encode : Claims → String → Outcome String
  pub decode : ℕ → String → String → Outcome Claims
  pub decode_unverified : String → Outcome Claims
  pub token_hex : ℕ → String

-- what the cache holds: a token or a list of ids of tokens
pub data Cached : Type 0 where
  a_token : String → Cached
  token_ids : List String → Cached

pub record AccessInfo : Type 0 where
  pub user_id : ℕ
  pub email : Option String
  pub roles : List String
  pub exp : Option ℕ

-- the times of `__init__`, in seconds
abbrev pub access_token_expiry : ℕ
access_token_expiry = 15 * 60

abbrev pub refresh_token_expiry : ℕ
refresh_token_expiry = 7 * 86400

abbrev pub reset_token_expiry : ℕ
reset_token_expiry = 3600

-- `get_token_expiry`
unfoldable pub get_token_expiry : String → ℕ
get_token_expiry token_type =
    if str_eq token_type "access"
    then access_token_expiry
    else if str_eq token_type "refresh"
    then refresh_token_expiry
    else if str_eq token_type "reset"
    then reset_token_expiry
    else 0

-- the claim that PyJWT makes of `datetime.utcnow() + timedelta(seconds=n)`
abbrev pub seconds_after : ℕ → ℕ → ℕ
seconds_after n now = (now + n * ticks) / ticks

abbrev pub claims : String → ℕ → ℕ → ℕ → Claims
claims token_type expiry now user_id = record {
  user_id = some user_id;
  email = none;
  token_type = some token_type;
  exp = some (seconds_after expiry now);
  iat = some (seconds_after 0 now);
  roles = none;
  jti = none;
}

abbrev pub is_type : String → Claims → Bool
is_type expected c = str_eq (or_else c.token_type "") expected

-- `datetime.fromtimestamp(exp) < datetime.utcnow()`, of an exp that is given
abbrev pub is_over : ℕ → Option ℕ → Bool
is_over now none = false
is_over now (some exp) = not (exp == 0) && ltb (exp * ticks) now

-- `payload['user_id']`
abbrev pub access_info : Claims → Outcome (Option AccessInfo)
access_info c = elim c.user_id [
  | none ↦ raised key_error
  | some id ↦
      ok (some (record { user_id = id; email = c.email; roles = or_else c.roles []; exp = c.exp }))
]

abbrev pub checked_access : ℕ → Outcome Claims → Outcome (Option AccessInfo)
checked_access now (raised expired_signature) = ok none
checked_access now (raised invalid_token) = ok none
checked_access now (raised e) = raised e
checked_access now (ok c) =
    if not (is_type "access" c)
    then ok none
    else if is_over now c.exp
    then ok none
    else access_info c

-- a token that is given and not empty is the one that is cached
abbrev pub is_cached : String → Option Cached → Bool
is_cached token (some (a_token stored)) = not (str_eq stored "") && str_eq stored token
is_cached token _ = false

-- `user_id` and `jti`, where both are given, not 0 and not empty
abbrev pub both : Option ℕ → Option String → Option (ℕ × String)
both (some id) (some jti) = if id == 0 || str_eq jti "" then none else some (id, jti)
both _ _ = none

abbrev pub ids_of : Option Cached → List String
ids_of (some (token_ids ids)) = ids
ids_of _ = []

-- the draws of random texts and the cache
pub record ServiceState (Store : Type 0) : Type 0 where
  pub draws : ℕ
  pub store : Store

module _ (jwt : PyJwt) (secret_key : String) (str_id : ℕ → String) (cache : CacheApi Cached) where
  abbrev pub State : Type 0
  State = ServiceState (CacheApi.State cache)

  abbrev pub on_store : {A : Type 0} → Exec (CacheApi.State cache) A → Exec State A
  on_store f s = let (r, c) = f s.store in (r, record s { store = c })

  abbrev pub lift : {A : Type 0} → Outcome A → Exec State A
  lift r s = (r, s)

  abbrev pub refresh_key : ℕ → String → String
  refresh_key user_id token_id = "refresh_token" ::: str_id user_id ::: token_id

  abbrev pub reset_key : Option ℕ → String
  reset_key none = "reset_token" ::: "None"
  reset_key (some user_id) = "reset_token" ::: str_id user_id

  abbrev pub active_key : ℕ → String
  active_key user_id = "user_active_tokens" ::: str_id user_id

  -- `_generate_jti`
  abbrev pub generate_jti : Exec State String
  generate_jti s = (ok (jwt.token_hex s.draws), record s { draws = suc s.draws })

  unfoldable pub generate_access_token : ℕ → ℕ → String → Option (List String) → Exec State String
  generate_access_token now user_id email roles = lift (
      jwt.encode
        (record (claims "access" access_token_expiry now user_id) {
          email = some email;
          roles = some (or_else roles []);
        })
        secret_key)

  unfoldable pub generate_refresh_token : ℕ → ℕ → Exec State (String × String)
  generate_refresh_token now user_id = do
    token_id ← generate_jti
    token ← lift (
        jwt.encode
          (record (claims "refresh" refresh_token_expiry now user_id) { jti = some token_id })
          secret_key)
    on_store (cache.set now (refresh_key user_id token_id) (a_token token) refresh_token_expiry)
    pure (token, token_id)

  unfoldable pub generate_reset_token : ℕ → ℕ → String → Exec State String
  generate_reset_token now user_id email = do
    token ← lift (
        jwt.encode (record (claims "reset" reset_token_expiry now user_id) { email = some email })
          secret_key)
    on_store (cache.set now (reset_key (some user_id)) (a_token token) reset_token_expiry)
    pure token

  unfoldable pub verify_access_token : ℕ → String → Outcome (Option AccessInfo)
  verify_access_token now token = checked_access now (jwt.decode now token secret_key)

  -- the `except` clauses of the verifications
  abbrev pub refuse : {A : Type 0} → Exn → Exec State (Option A)
  refuse expired_signature = pure none
  refuse invalid_token = pure none
  refuse e = raise e

  abbrev pub answer_if : {A : Type 0} → String → A → Option Cached → Exec State (Option A)
  answer_if token answer cached_token =
      pure (if is_cached token cached_token then some answer else none)

  abbrev pub check_stored : ℕ → String → Option (ℕ × String) → Exec State (Option (ℕ × String))
  check_stored now token none = pure none
  check_stored now token (some (id, jti)) = do
    cached_token ← on_store (cache.get now (refresh_key id jti))
    answer_if token (id, jti) cached_token

  unfoldable pub verify_refresh_token : ℕ → String → Exec State (Option (ℕ × String))
  verify_refresh_token now token =
      catch
        (do
          c ← lift (jwt.decode now token secret_key)
          check_stored now token (if is_type "refresh" c then both c.user_id c.jti else none))
        refuse

  abbrev pub check_reset :
      ℕ → String → Claims → Bool → Exec State (Option (Option ℕ × Option String))
  check_reset now token c false = pure none
  check_reset now token c true = do
    cached_token ← on_store (cache.get now (reset_key c.user_id))
    answer_if token (c.user_id, c.email) cached_token

  unfoldable pub verify_reset_token : ℕ → String → Exec State (Option (Option ℕ × Option String))
  verify_reset_token now token =
      catch
        (do c ← lift (jwt.decode now token secret_key); check_reset now token c (is_type "reset" c))
        refuse

  -- `refresh_access_token` answers the id of the user.
  unfoldable pub refresh_access_token : ℕ → String → Exec State (Option ℕ)
  unfolding verify_refresh_token
  refresh_access_token now token = do
    payload ← verify_refresh_token now token
    pure (elim payload [ none ↦ none | some p ↦ some (p.0) ])

  unfoldable pub blacklist_refresh_token : ℕ → ℕ → String → Exec State Unit
  blacklist_refresh_token now user_id token_id = do
    on_store (cache.delete now (refresh_key user_id token_id))
    pure tt

  unfoldable pub delete_tokens : ℕ → ℕ → List String → Exec State Unit
  delete_tokens now user_id [] = pure tt
  delete_tokens now user_id (token_id ∷ rest) = do
    on_store (cache.delete now (refresh_key user_id token_id))
    delete_tokens now user_id rest

  -- No method writes the list of ids that this one reads.
  unfoldable pub blacklist_all_user_tokens : ℕ → ℕ → Exec State Unit
  unfolding delete_tokens
  blacklist_all_user_tokens now user_id = do
    listed ← on_store (cache.get now (active_key user_id))
    delete_tokens now user_id (ids_of listed)
    on_store (cache.delete now (active_key user_id))
    pure tt

  unfoldable pub invalidate_reset_token : ℕ → ℕ → Exec State Unit
  invalidate_reset_token now user_id = do
    on_store (cache.delete now (reset_key (some user_id)))
    pure tt

-- `extract_token_payload`
unfoldable pub extract_token_payload : PyJwt → String → Outcome (Option Claims)
extract_token_payload jwt token = elim (jwt.decode_unverified token) [
  | ok c ↦ ok (some c)
  | raised invalid_token ↦ ok none
  | raised e ↦ raised e
]

abbrev pub is_expired : ℕ → Option Claims → Bool
is_expired now none = true
is_expired now (some c) = elim c.exp [ none ↦ true | some exp ↦ exp == 0 || ltb (exp * ticks) now ]

unfoldable pub is_token_expired : PyJwt → ℕ → String → Outcome Bool
unfolding extract_token_payload
is_token_expired jwt now token = elim (extract_token_payload jwt token) [
  | raised e ↦ raised e
  | ok payload ↦ ok (is_expired now payload)
]
