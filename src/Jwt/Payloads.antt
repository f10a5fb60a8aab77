-- ===== src/Jwt/Payloads.antt =====
-- The payloads and the tokens that `JWTManager` of apps/core/jwt/jwt_backend.py makes.
use taunggyi_city_church.Common.{
  ℕ, suc, ◌*◌, ◌≤◌, ◌<◌, ◌≡◌, refl, true, false, Option, none, some, List, [], ◌∷◌, String, arith,
  str_eq, or_else, is_some, ◌&&◌, Bool-cases, inl, inr,
}
use taunggyi_city_church.Common.Exec.{ok}
use taunggyi_city_church.Cache.Breaker.{ticks}
use taunggyi_city_church.Jwt.{TokenType, access, refresh, value, Payload, TokenConfig}
use taunggyi_city_church.Jwt.Backend.{
  Jwt, DjangoCache, Backend, claims, seconds_after, truthy, session_or_new, verify_token,
  verify_signature, generate_access_token, generate_refresh_token, first_audience,
}
use taunggyi_city_church.Jwt.Verify.{verify_token_lem}

-- What PyJWT documents for HS256, of the payloads that `Known` picks: a payload is encoded, and
-- decodes to itself under the same secret, while it is not over and not from the future, for its own
-- issuer and audience. A new uuid is not the empty text.
pub record JwtLaws (jwt : Jwt) (Known : Payload → Type 0) : Type 0 where
  pub token_of : Payload → String → String
  pub encode_lem :
      (p : Payload) (secret : String)
      → Known p
      → jwt.encode p secret "HS256" ≡ ok (token_of p secret)
  pub decode-encode :
      (p : Payload) (secret issuer audience : String) (now issued exp : ℕ)
      → Known p
      → p.iat ≡ some issued
      → issued * ticks ≤ now
      → p.exp ≡ some exp
      → now < exp * ticks
      → p.iss ≡ some issuer
      → p.aud ≡ some audience
      → jwt.decode now (token_of p secret) secret "HS256" issuer (some audience) ≡ ok p
  pub uuid4_lem : (n : ℕ) → str_eq (jwt.uuid4 n) "" ≡ false

-- the payloads of the two tokens
abbrev pub access_payload :
    TokenConfig → ℕ → String → String → Option (List String) → String → String → Payload
access_payload c now user_id email roles session jti =
    record (claims c access c.access_token_expiry now user_id email jti) {
      roles = some (or_else roles []);
      session_id = some session;
    }

abbrev pub refresh_payload : TokenConfig → ℕ → String → String → String → String → Payload
refresh_payload c now user_id email session jti =
    record (claims c refresh c.refresh_token_expiry now user_id email jti) {
      session_id = some session;
    }

-- The session of a call and the number of draws after it was chosen.
abbrev pub session_of : Jwt → Option String → ℕ → String × ℕ
session_of jwt none n = (jwt.uuid4 n, suc n)
session_of jwt (some session) n = (session, n)

module _ (jwt : Jwt) (Known : Payload → Type 0) (laws : JwtLaws jwt Known)
    (cache : DjangoCache) where
  pub session_lem :
      (session_id : Option String) (s : Backend jwt cache)
      → let (session, n) = session_of jwt (truthy session_id) s.draws in
        (session_or_new jwt cache (truthy session_id) s ≡ (ok session, record s { draws = n }))
        × (str_eq session "" ≡ false)
  session_lem none s = (refl, laws.uuid4_lem s.draws)
  session_lem (some given) s = elim (Bool-cases (str_eq given "")) [
    | inl blank ↦ rw blank (refl, laws.uuid4_lem s.draws)
    | inr set ↦ rw set (refl, set)
  ]

  pub access_lem :
      (now : ℕ) (user_id email : String) (roles : Option (List String)) (session : String)
      (s : Backend jwt cache)
      → s.config.algorithm ≡ "HS256"
      → str_eq session "" ≡ false
      → Known (access_payload s.config now user_id email roles session (jwt.token_urlsafe s.draws))
      → generate_access_token jwt cache now user_id email roles (some session) s ≡ (
        ok (
            laws.token_of
              (access_payload s.config now user_id email roles session (jwt.token_urlsafe s.draws))
              s.config.secret_key),
        record s { draws = suc s.draws },
      )
  unfolding generate_access_token
  access_lem now user_id email roles session s hs set known =
      rw
        (
          set,
          hs,
          laws.encode_lem
              (access_payload s.config now user_id email roles session (jwt.token_urlsafe s.draws))
              s.config.secret_key known,
        )
        refl

  pub refresh_lem :
      (now : ℕ) (user_id email session : String) (s : Backend jwt cache)
      → s.config.algorithm ≡ "HS256"
      → str_eq session "" ≡ false
      → Known (refresh_payload s.config now user_id email session (jwt.token_urlsafe s.draws))
      → generate_refresh_token jwt cache now user_id email (some session) s ≡ (
        ok (
            laws.token_of
              (refresh_payload s.config now user_id email session (jwt.token_urlsafe s.draws))
              s.config.secret_key),
        record s { draws = suc s.draws },
      )
  unfolding generate_refresh_token
  refresh_lem now user_id email session s hs set known =
      rw
        (
          set,
          hs,
          laws.encode_lem
              (refresh_payload s.config now user_id email session (jwt.token_urlsafe s.draws))
              s.config.secret_key known,
        )
        refl

  -- A payload that is issued under a configuration decodes until it is over.
  module _ (c : TokenConfig) (audience : String) (rest : List String) (now t expiry : ℕ)
      (p : Payload) where
    pub record IsIssued : Type 0 where
      pub known : Known p
      pub algorithm : c.algorithm ≡ "HS256"
      pub audiences : c.audience ≡ audience ∷ rest
      pub later : now ≤ t
      pub alive : t < seconds_after expiry now * ticks
      pub iat : p.iat ≡ some (seconds_after 0 now)
      pub exp : p.exp ≡ some (seconds_after expiry now)
      pub iss : p.iss ≡ some c.issuer
      pub aud : p.aud ≡ some audience

    decoded_lem :
        IsIssued
        → jwt.decode t
            (laws.token_of p c.secret_key)
            c.secret_key
            c.algorithm
            c.issuer
            (first_audience c.audience)
          ≡ ok p
    decoded_lem h =
        rw (h.algorithm, h.audiences)
          (laws.decode-encode p c.secret_key c.issuer audience t (seconds_after 0 now)
            (seconds_after expiry now) h.known h.iat (omega (arith, h.later)) h.exp h.alive h.iss
            h.aud)

    pub passes_lem :
        IsIssued
        → (x : TokenType) → p.token_type ≡ some (value x)
        → (is_some p.sub && is_some p.jti) ≡ true
        → verify_token jwt c t (laws.token_of p c.secret_key) (some x) ≡ (true, some p)
    passes_lem h x typed named =
        (verify_token_lem jwt c t (laws.token_of p c.secret_key) (some x) p).1 (record {
          decoded = decoded_lem h;
          typed = typed;
          complete = ground (arith, named, typed, h.exp, h.iat);
          alive = rw (h.exp) (inr (omega (arith, h.alive)));
        })

    -- and it does not pass as a token of another type
    pub mistyped_lem :
        IsIssued
        → (x : TokenType) (v : String) → p.token_type ≡ some v
        → str_eq v (value x) ≡ false
        → verify_token jwt c t (laws.token_of p c.secret_key) (some x) ≡ (false, none)
    unfolding verify_token verify_signature
    mistyped_lem h x v typed apart = rw (decoded_lem h, typed, apart) refl
