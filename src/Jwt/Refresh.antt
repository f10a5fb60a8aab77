-- ===== src/Jwt/Refresh.antt =====
-- `refresh_tokens` and `revoke_refresh_token` of apps/core/jwt/jwt_backend.py.
use taunggyi_city_church.Common.{
  ℕ, ◌≡◌, refl, Bool, true, false, Option, none, some, [], String, arith, str_eq, str_eq_refl,
  is_some, or_else, if◌then◌else◌, Bool-cases, inl, inr,
}
use taunggyi_city_church.Common.Exec.{value_error, ok, raised}
use taunggyi_city_church.Jwt.{refresh, Payload}
use taunggyi_city_church.Jwt.Backend.{
  Jwt, DjangoCache, Backend, Tokens, truthy, refresh_key, verify_token, create_tokens,
  refresh_tokens, refresh_verified, revoke_refresh_token,
}
use taunggyi_city_church.Jwt.Verify.{IsVerified, verify_token_lem, is_complete}

-- What Django documents of a cache that works: `get` answers and changes no later answer, and
-- `delete` answers and takes the key away. What is stored may end in time.
pub record StoreLaws (cache : DjangoCache) : Type 0 where
  pub view : ℕ → DjangoCache.Store cache → String → Option String
  pub get_reads :
      (now : ℕ) (k : String) (s : DjangoCache.Store cache)
      → (cache.get now k s).0 ≡ ok (view now s k)
  pub get_keeps :
      (now t : ℕ) (k j : String) (s : DjangoCache.Store cache)
      → view t (cache.get now k s).1 j ≡ view t s j
  pub delete_answers :
      (now : ℕ) (k : String) (s : DjangoCache.Store cache)
      → (b : Bool) × ((cache.delete now k s).0 ≡ ok b)
  pub delete_removes :
      (now t : ℕ) (k j : String) (s : DjangoCache.Store cache)
      → view t (cache.delete now k s).1 j ≡ (if str_eq k j then none else view t s j)

module _ (jwt : Jwt) (cache : DjangoCache) (laws : StoreLaws cache) where
  -- the state after the key was read
  abbrev pub after_get : ℕ → String → Backend jwt cache → Backend jwt cache
  after_get now k s = record s { store = (cache.get now k s.store).1 }

  -- A token that passes as a refresh token of a user, with an email, is exchanged by `create_tokens`
  -- for the same user, email, session and roles if something is stored under its user and its jti,
  -- and refused with a ValueError if not.
  pub refresh_tokens_lem :
      (now : ℕ) (token user_id jti email : String) (p : Payload) (s : Backend jwt cache)
      → IsVerified jwt s.config now token (some refresh) p
      → p.sub ≡ some user_id
      → p.jti ≡ some jti
      → p.email ≡ some email
      → let s1 = after_get now (refresh_key user_id jti) s in
        refresh_tokens jwt cache now token s ≡ (
          if is_some (truthy (laws.view now s.store (refresh_key user_id jti)))
          then create_tokens jwt cache now user_id email (some (or_else p.roles [])) p.session_id s1
          else (raised value_error, s1))
  unfolding refresh_tokens
  refresh_tokens_lem now token user_id jti email p s v sub named mailed =
      let passed = (verify_token_lem jwt s.config now token (some refresh) p).1 v in
      let stored = truthy (laws.view now s.store (refresh_key user_id jti)) in
      rw (passed, sub, named, laws.get_reads now (refresh_key user_id jti) s.store, mailed)
        (elim (Bool-cases (is_some stored)) [
          | inl there ↦ rw there refl
          | inr missing ↦ rw missing refl
        ])

  -- the claims that a verified payload is known to have
  pub sub_and_jti :
      (p : Payload)
      → is_complete p ≡ true
      → (user_id jti : String) × (p.sub ≡ some user_id) × (p.jti ≡ some jti)
  sub_and_jti p h = named p.sub p.jti (ground (arith, h)) (ground (arith, h))
    where
      named :
          (a b : Option String)
          → is_some a ≡ true
          → is_some b ≡ true
          → (user_id jti : String) × (a ≡ some user_id) × (b ≡ some jti)
      named none b h k = absurd (ground (arith, h))
      named (some a) none h k = absurd (ground (arith, k))
      named (some a) (some b) h k = (a, b, refl, refl)

  -- what an exchange that returned tells
  abbrev Earned : ℕ → String → Backend jwt cache → Type 0
  Earned now token s =
      (p : Payload) × (user_id jti : String) × IsVerified jwt s.config now token (some refresh) p
      × (p.sub ≡ some user_id)
      × (p.jti ≡ some jti)
      × (is_some (truthy (laws.view now s.store (refresh_key user_id jti))) ≡ true)

  pub unstored_lem :
      (now : ℕ) (p : Payload) (user_id jti : String) (s : Backend jwt cache)
      → p.sub ≡ some user_id
      → p.jti ≡ some jti
      → is_some (truthy (laws.view now s.store (refresh_key user_id jti))) ≡ false
      → (refresh_verified jwt cache now (true, some p) s).0 ≡ raised value_error
  unstored_lem now p user_id jti s sub named missing =
      rw (sub, named, laws.get_reads now (refresh_key user_id jti) s.store, missing) refl

  Earned-by :
      (now : ℕ) (token : String) (s : Backend jwt cache) (o : Bool × Option Payload)
      (tokens : Tokens)
      → verify_token jwt s.config now token (some refresh) ≡ o
      → (refresh_verified jwt cache now o s).0 ≡ ok tokens
      → Earned now token s
  Earned-by now token s (true, some p) tokens passed h =
      let v = (verify_token_lem jwt s.config now token (some refresh) p).0 passed in
      let (user_id, jti, sub, named) = sub_and_jti p v.complete in
      elim (Bool-cases (is_some (truthy (laws.view now s.store (refresh_key user_id jti))))) [
        | inl there ↦ (p, user_id, jti, v, sub, named, there)
        | inr missing ↦
            absurd (ground (arith, h, unstored_lem now p user_id jti s sub named missing))
      ]
  Earned-by now token s (true, none) tokens passed h = absurd (ground (arith, h))
  Earned-by now token s (false, p) tokens passed h = absurd (ground (arith, h))

  -- Tokens come back only for a token that passes as a refresh token and under whose user and jti
  -- something is stored.
  pub refresh_tokens-earned :
      (now : ℕ) (token : String) (s : Backend jwt cache) (tokens : Tokens)
      → (refresh_tokens jwt cache now token s).0 ≡ ok tokens
      → (p : Payload) × (user_id jti : String) × IsVerified jwt s.config now token (some refresh) p
        × (p.sub ≡ some user_id)
        × (p.jti ≡ some jti)
        × (is_some (truthy (laws.view now s.store (refresh_key user_id jti))) ≡ true)
  unfolding refresh_tokens
  refresh_tokens-earned now token s tokens h =
      Earned-by now token s (verify_token jwt s.config now token (some refresh)) tokens refl h

  -- `revoke_refresh_token` answers True; afterwards, at any time, a token of that user and jti that
  -- still passes is refused with a ValueError, and what is stored under other keys is unchanged.
  pub revoked_refused :
      (now t : ℕ) (token user_id jti : String) (p : Payload) (s : Backend jwt cache)
      → IsVerified jwt s.config t token (some refresh) p
      → p.sub ≡ some user_id
      → p.jti ≡ some jti
      → (s' : Backend jwt cache) × (revoke_refresh_token jwt cache now user_id jti s
          ≡ (ok true, s'))
        × ((refresh_tokens jwt cache t token s').0 ≡ raised value_error)
        × ((k : String)
            → str_eq (refresh_key user_id jti) k ≡ false
            → laws.view t s'.store k ≡ laws.view t s.store k)
  unfolding revoke_refresh_token refresh_tokens
  revoked_refused now t token user_id jti p s v sub named =
      let key = refresh_key user_id jti in
      let (b, gone) = laws.delete_answers now key s.store in
      let s' : Backend jwt cache = record s { store = (cache.delete now key s.store).1 } in
      let passed = (verify_token_lem jwt s.config t token (some refresh) p).1 v in
      let removed : laws.view t s'.store key ≡ none =
        rw (laws.delete_removes now t key key s.store, str_eq_refl key) refl in
      (
        s',
        rw gone refl,
        rw passed (unstored_lem t p user_id jti s' sub named (rw removed refl)),
        λ k apart. rw (laws.delete_removes now t key k s.store, apart) refl,
      )
