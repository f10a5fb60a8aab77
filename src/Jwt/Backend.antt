-- ===== src/Jwt/Backend.antt =====
-- apps/core/jwt/jwt_backend.py: `JWTManager` and `JWTBackend`. PyJWT, json, the sources of random
-- texts and Django's cache are parameters.
use taunggyi_city_church.Common.{
  ℕ, suc, ◌+◌, ◌*◌, ◌/◌, Bool, true, false, not, ◌&&◌, ◌||◌, Option, none, some, List, [], ◌∷◌,
  String, str_eq, ltb, or_else, ◌==◌, is_some, if◌then◌else◌,
}
use taunggyi_city_church.Common.Exec.{
  value_error, key_error, Outcome, ok, raised, Exec, pure, raise, gets, catch, ◌>>=◌, ◌>>◌,
  raise_if,
}
use taunggyi_city_church.Common.Text.{◌:::◌}
use taunggyi_city_church.Cache.Breaker.{ticks}
use taunggyi_city_church.Jwt.{TokenType, access, refresh, reset, value, Payload, TokenConfig}

-- `jwt.encode(payload, secret, algorithm)` and `jwt.decode(token, secret, algorithm, issuer, audience)`
-- at a time; `str(uuid.uuid4())` and `secrets.token_urlsafe(32)` by the number of earlier draws; and
-- the text of the data that is stored for a refresh token.
pub record Jwt : Type 0 where
  pub encode : Payload → String → String → Outcome String
  pub decode : ℕ → String → String → String → String → Option String → Outcome Payload
  pub uuid4 : ℕ → String
  pub token_urlsafe : ℕ → String
  pub cache_data : String → String → String → ℕ → String

-- `django.core.cache.cache`
pub record DjangoCache : Type 1 where
  pub Store : Type 0
  pub get : ℕ → String → Exec Store (Option String)
  pub set : ℕ → String → String → ℕ → Exec Store Unit
  pub delete : ℕ → String → Exec Store Bool

pub record JwtBackend (Store : Type 0) : Type 0 where
  pub config : TokenConfig
  pub draws : ℕ
  pub store : Store

pub record Tokens : Type 0 where
  pub access_token : String
  pub refresh_token : String
  pub expires_in : ℕ
  pub session_id : String

-- what `x or …` reads as missing
abbrev pub truthy : Option String → Option String
truthy none = none
truthy (some s) = if str_eq s "" then none else some s

abbrev pub first_audience : List String → Option String
first_audience [] = none
first_audience (a ∷ rest) = some a

-- `int((now + timedelta(seconds=n)).timestamp())`
abbrev pub seconds_after : ℕ → ℕ → ℕ
seconds_after n now = (now + n * ticks) / ticks

-- A claim in an f-string.
abbrev pub text_of : Option String → String
text_of none = "None"
text_of (some s) = s

abbrev pub refresh_key : String → String → String
refresh_key user_id jti = "refresh_token" ::: user_id ::: jti

abbrev pub reset_key : String → String
reset_key user_id = "reset_token" ::: user_id

-- the claims that all tokens share
abbrev pub claims : TokenConfig → TokenType → ℕ → ℕ → String → String → String → Payload
claims c token_type expiry now user_id email jti = record {
  token_type = some (value token_type);
  sub = some user_id;
  email = some email;
  roles = none;
  session_id = none;
  jti = some jti;
  iat = some (seconds_after 0 now);
  exp = some (seconds_after expiry now);
  iss = some c.issuer;
  aud = some (or_else (first_audience c.audience) "tcc-api");
  purpose = none;
}

abbrev pub same_type : Option TokenType → Option String → Bool
same_type none t = true
same_type (some expected) none = false
same_type (some expected) (some t) = str_eq t (value expected)

-- `exp and datetime.utcnow().timestamp() > exp`
abbrev pub is_over : ℕ → Option ℕ → Bool
is_over now none = false
is_over now (some exp) = not (exp == 0) && ltb (exp * ticks) now

-- `_perform_security_checks`
unfoldable pub perform_security_checks : ℕ → Payload → Bool
perform_security_checks now p =
    (is_some p.sub && is_some p.exp && is_some p.iat && is_some p.jti && is_some p.token_type)
    && not (is_over now p.exp)

abbrev pub checked_type : Option TokenType → Outcome Payload → Bool × Option Payload
checked_type token_type (ok p) =
    if same_type token_type p.token_type then (true, some p) else (false, none)
checked_type token_type (raised e) = (false, none)

abbrev pub checked_claims : ℕ → Bool × Option Payload → Bool × Option Payload
checked_claims now (true, some p) =
    if perform_security_checks now p then (true, some p) else (false, none)
checked_claims now (true, none) = (false, none)
checked_claims now (false, p) = (false, none)

module _ (jwt : Jwt) where
  -- `JWTManager.verify_token`; every exception is caught
  unfoldable pub verify_signature :
      TokenConfig → ℕ → String → Option TokenType → Bool × Option Payload
  verify_signature c now token token_type =
      checked_type token_type
        (jwt.decode now token c.secret_key c.algorithm c.issuer (first_audience c.audience))

  -- `JWTBackend.verify_token`
  unfoldable pub verify_token : TokenConfig → ℕ → String → Option TokenType → Bool × Option Payload
  verify_token c now token token_type = checked_claims now (verify_signature c now token token_type)

module _ (jwt : Jwt) (cache : DjangoCache) where
  abbrev pub Backend : Type 0
  Backend = JwtBackend (cache.Store)

  abbrev pub on_store : {A : Type 0} → Exec (cache.Store) A → Exec Backend A
  on_store m s = let (r, store) = m s.store in (r, record s { store = store })

  -- A coroutine is a value: to make it runs nothing, to await it runs it.
  abbrev pub sync_to_async : {A : Type 0} → Exec (cache.Store) A → Exec Backend (Exec Backend A)
  sync_to_async m = pure (on_store m)

  abbrev pub await : {A : Type 0} → Exec Backend (Exec Backend A) → Exec Backend A
  await m = m >>= λ coroutine. coroutine

  abbrev pub draw : (ℕ → String) → Exec Backend String
  draw source s = (ok (source s.draws), record s { draws = suc s.draws })

  -- `session_id or str(uuid.uuid4())`
  abbrev pub session_or_new : Option String → Exec Backend String
  session_or_new none = draw (jwt.uuid4)
  session_or_new (some s) = pure s

  abbrev pub encode : Payload → Exec Backend String
  encode p s = (jwt.encode p s.config.secret_key s.config.algorithm, s)

  unfoldable pub generate_access_token :
      ℕ → String → String → Option (List String) → Option String → Exec Backend String
  generate_access_token now user_id email roles session_id = do
    c ← gets (λ s. s.config)
    session ← session_or_new (truthy session_id)
    jti ← draw (jwt.token_urlsafe)
    encode (record (claims c access c.access_token_expiry now user_id email jti) {
      roles = some (or_else roles []);
      session_id = some session;
    })

  -- The coroutine that would store the token is not awaited.
  unfoldable pub generate_refresh_token : ℕ → String → String → Option String → Exec Backend String
  generate_refresh_token now user_id email session_id = do
    c ← gets (λ s. s.config)
    session ← session_or_new (truthy session_id)
    jti ← draw (jwt.token_urlsafe)
    token ← encode (record (claims c refresh c.refresh_token_expiry now user_id email jti) {
      session_id = some session;
    })
    sync_to_async (
        cache.set now (refresh_key user_id jti) (jwt.cache_data token user_id session now)
          c.refresh_token_expiry)
    pure token

  -- Neither is this one.
  unfoldable pub generate_reset_token : ℕ → String → String → Exec Backend String
  generate_reset_token now user_id email = do
    c ← gets (λ s. s.config)
    jti ← draw (jwt.token_urlsafe)
    token ← encode (record (claims c reset c.reset_token_expiry now user_id email jti) {
      purpose = some "password_reset";
    })
    sync_to_async (cache.set now (reset_key user_id) token c.reset_token_expiry)
    pure token

  unfoldable pub create_tokens :
      ℕ → String → String → Option (List String) → Option String → Exec Backend Tokens
  create_tokens now user_id email roles session_id = do
    c ← gets (λ s. s.config)
    session ← session_or_new (truthy session_id)
    access_token ← generate_access_token now user_id email roles (some session)
    refresh_token ← generate_refresh_token now user_id email (some session)
    pure (record {
      access_token = access_token;
      refresh_token = refresh_token;
      expires_in = c.access_token_expiry;
      session_id = session;
    })

  -- `payload['…']`
  abbrev pub claim : Option String → Exec Backend String
  claim (some s) = pure s
  claim none = raise key_error

  -- the rest of `refresh_tokens` after the cache was asked
  abbrev pub exchange_cached : ℕ → Payload → String → Option String → Exec Backend Tokens
  exchange_cached now p user_id cached_data = do
    raise_if (not (is_some (truthy cached_data))) value_error
    email ← claim p.email
    create_tokens now user_id email (some (or_else p.roles [])) p.session_id

  -- the rest of `refresh_tokens` after `verify_token`
  abbrev pub refresh_verified : ℕ → Bool × Option Payload → Exec Backend Tokens
  refresh_verified now (true, some p) = do
    user_id ← claim p.sub
    cached_data ← await (sync_to_async (cache.get now (refresh_key user_id (text_of p.jti))))
    exchange_cached now p user_id cached_data
  refresh_verified now (true, none) = raise value_error
  refresh_verified now (false, p) = raise value_error

  unfoldable pub refresh_tokens : ℕ → String → Exec Backend Tokens
  refresh_tokens now refresh_token = do
    c ← gets (λ s. s.config)
    refresh_verified now (verify_token jwt c now refresh_token (some refresh))

  unfoldable pub revoke_refresh_token : ℕ → String → String → Exec Backend Bool
  revoke_refresh_token now user_id jti =
      catch (do await (sync_to_async (cache.delete now (refresh_key user_id jti))); pure true)
        (λ e. pure false)

  -- It revokes nothing.
  unfoldable pub revoke_all_user_refresh_tokens : String → Exec Backend Bool
  revoke_all_user_refresh_tokens user_id = pure true

  abbrev pub is_same : Option String → String → Bool
  is_same none token = false
  is_same (some cached_token) token = str_eq cached_token token

  -- the end of `verify_reset_token`
  abbrev pub compare_cached :
      String → Payload → Option String → Exec Backend (Bool × Option Payload)
  compare_cached token p cached_token = pure (
      if not (is_some (truthy cached_token)) || not (is_same cached_token token)
      then (false, none)
      else (true, some p))

  -- the rest of `verify_reset_token` after `verify_token`
  abbrev pub reset_verified :
      ℕ → String → Bool × Option Payload → Exec Backend (Bool × Option Payload)
  reset_verified now token (true, some p) = do
    user_id ← claim p.sub
    cached_token ← await (sync_to_async (cache.get now (reset_key user_id)))
    compare_cached token p cached_token
  reset_verified now token (true, none) = pure (false, none)
  reset_verified now token (false, p) = pure (false, none)

  unfoldable pub verify_reset_token : ℕ → String → Exec Backend (Bool × Option Payload)
  verify_reset_token now token = do
    c ← gets (λ s. s.config)
    reset_verified now token (verify_token jwt c now token (some reset))

  unfoldable pub invalidate_reset_token : ℕ → String → Exec Backend Bool
  invalidate_reset_token now user_id =
      catch (do await (sync_to_async (cache.delete now (reset_key user_id))); pure true)
        (λ e. pure false)
