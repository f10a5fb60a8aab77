-- ===== src/Auth/Tokens/Lifetimes.antt =====
-- How long the refresh tokens of apps/tcc/usecase/usecases/auth/jwt_uc.py verify, and what revokes them.
use taunggyi_city_church.Common.{
  ℕ, suc, ◌+◌, ◌*◌, ◌≤◌, ◌<◌, ◌≡◌, refl, ◌∙◌, ◌==◌, true, false, Option, none, some, String, str_eq,
  str_eq_refl, if◌then◌else◌, arith,
}
use taunggyi_city_church.Common.Text.{◌:::◌, :::-apart}
use taunggyi_city_church.Common.Exec.{Outcome, ok}
use taunggyi_city_church.Cache.Api.{CacheApi, IsCache}
use taunggyi_city_church.Cache.Breaker.{ticks}
use taunggyi_city_church.Auth.Tokens.{
  Claims, PyJwt, Cached, a_token, State, claims, seconds_after, refresh_token_expiry, refresh_key,
  active_key, generate_refresh_token, verify_refresh_token, blacklist_refresh_token,
  blacklist_all_user_tokens, delete_tokens, is_cached,
}

-- What PyJWT documents, of the claims that `Known` picks: they are encoded, as a text that is not
-- empty, and decode to themselves under the same secret while they are not over and not from the
-- future. A random text is not empty.
pub record PyJwtLaws (jwt : PyJwt) (Known : Claims → Type 0) : Type 0 where
  pub token_of : Claims → String → String
  pub encode_lem :
      (c : Claims) (secret : String) → Known c → jwt.encode c secret ≡ ok (token_of c secret)
  pub token_of_lem :
      (c : Claims) (secret : String) → Known c → str_eq (token_of c secret) "" ≡ false
  pub decode-encode :
      (c : Claims) (secret : String) (now issued exp : ℕ)
      → Known c
      → c.iat ≡ some issued
      → issued * ticks ≤ now
      → c.exp ≡ some exp
      → now < exp * ticks
      → jwt.decode now (token_of c secret) secret ≡ ok c
  pub token_hex_lem : (n : ℕ) → str_eq (jwt.token_hex n) "" ≡ false

abbrev pub refresh_claims : ℕ → ℕ → String → Claims
refresh_claims now user_id jti = record (claims "refresh" refresh_token_expiry now user_id) {
  jti = some jti;
}

-- when a refresh token of a time is over
abbrev pub over_at : ℕ → ℕ
over_at now = seconds_after refresh_token_expiry now * ticks

over_in_time : (now : ℕ) → over_at now ≤ now + refresh_token_expiry * ticks
over_in_time now = omega arith

issued_before : (now : ℕ) → seconds_after 0 now * ticks ≤ now
issued_before now = omega arith

module _ (jwt : PyJwt) {Known : Claims → Type 0} (laws : PyJwtLaws jwt Known) (secret_key : String)
    (str_id : ℕ → String) (cache : CacheApi Cached) {Up : CacheApi.State cache → Type 0}
    {view : ℕ → CacheApi.State cache → String → Option Cached}
    (cache_laws : IsCache cache Up view) where
  abbrev pub St : Type 0
  St = State jwt secret_key str_id cache

  abbrev pub key_of : ℕ → String → String
  key_of = refresh_key jwt secret_key str_id cache

  abbrev pub token_at : ℕ → ℕ → String → String
  token_at now user_id jti = laws.token_of (refresh_claims now user_id jti) secret_key

  abbrev pub verified_at : ℕ → String → St → Outcome (Option (ℕ × String))
  verified_at t token s = (verify_refresh_token jwt secret_key str_id cache t token s).0

  -- what is verified of a token is what the cache holds of it
  verifies :
      (now t user_id : ℕ) (jti : String) (s : St) (o : Option Cached)
      → Known (refresh_claims now user_id jti)
      → str_eq jti "" ≡ false
      → 0 < user_id
      → now ≤ t
      → t < over_at now
      → Up s.store
      → view t s.store (key_of user_id jti) ≡ o
      → verified_at t (token_at now user_id jti) s
        ≡ ok (if is_cached (token_at now user_id jti) o then some (user_id, jti) else none)
  unfolding verify_refresh_token
  verifies now t user_id jti s o known set positive le early up seen =
      let p = refresh_claims now user_id jti in
      let decodes =
        laws.decode-encode p secret_key t (seconds_after 0 now)
          (seconds_after refresh_token_expiry now) known refl (omega (arith, issued_before now, le))
          refl early in
      let given : (user_id == 0) ≡ false = ground (arith, positive) in
      rw (decodes, given, set, cache_laws.get_reads t (key_of user_id jti) s.store up, seen) refl

  -- the state once a refresh token is made
  abbrev made : ℕ → ℕ → St → St
  made now user_id s =
      let jti = jwt.token_hex s.draws in
      record {
        draws = suc s.draws;
        store =
            (cache.set now (key_of user_id jti) (a_token (token_at now user_id jti))
              refresh_token_expiry s.store).1;
      }

  generates :
      (now user_id : ℕ) (s : St)
      → Known (refresh_claims now user_id (jwt.token_hex s.draws))
      → Up s.store
      → generate_refresh_token jwt secret_key str_id cache now user_id s ≡ (
        ok (token_at now user_id (jwt.token_hex s.draws), jwt.token_hex s.draws),
        made now user_id s,
      )
  unfolding generate_refresh_token
  generates now user_id s known up =
      let jti = jwt.token_hex s.draws in
      let (up1, sets) =
        cache_laws.set_up now refresh_token_expiry (key_of user_id jti)
          (a_token (token_at now user_id jti)) s.store up (omega arith) in
      rw (laws.encode_lem (refresh_claims now user_id jti) secret_key known, sets) refl

  made-Up : (now user_id : ℕ) (s : St) → Up s.store → Up (made now user_id s).store
  made-Up now user_id s up =
      let jti = jwt.token_hex s.draws in
      (cache_laws.set_up now refresh_token_expiry (key_of user_id jti)
        (a_token (token_at now user_id jti)) s.store up (omega arith)).0

  made_reads :
      (now t user_id : ℕ) (s : St) (j : String)
      → Up s.store
      → now ≤ t
      → t < over_at now
      → view t (made now user_id s).store j ≡ (
          if str_eq (key_of user_id (jwt.token_hex s.draws)) j
          then some (a_token (token_at now user_id (jwt.token_hex s.draws)))
          else view t s.store j)
  made_reads now t user_id s j up le early =
      let jti = jwt.token_hex s.draws in
      let in_time : t < now + refresh_token_expiry * ticks =
        omega (arith, early, over_in_time now) in
      cache_laws.set_writes now refresh_token_expiry t (key_of user_id jti) j
        (a_token (token_at now user_id jti)) s.store up (omega arith) le
      ∙ ground (arith, in_time)

  keys_apart :
      (user_id other : ℕ) (jti : String)
      → (str_eq (key_of user_id jti) (active_key jwt secret_key str_id cache other) ≡ false)
        × (str_eq (active_key jwt secret_key str_id cache other) (key_of user_id jti) ≡ false)
  keys_apart user_id other jti = (
    :::-apart "refresh_token" "user_active_tokens" (str_id user_id ::: jti) (str_id other) refl refl
        (λ h. omega (arith, h)),
    :::-apart "user_active_tokens" "refresh_token" (str_id other) (str_id user_id ::: jti) refl refl
        (λ h. omega (arith, h)),
  )

  -- revoking one token reads as its key being gone
  revoked_reads :
      (t t' user_id : ℕ) (jti : String) (s : St)
      → Up s.store
      → t ≤ t'
      → Up (blacklist_refresh_token jwt secret_key str_id cache t user_id jti s).1.store
        × (view t'
              (blacklist_refresh_token jwt secret_key str_id cache t user_id jti s).1.store
              (key_of user_id jti)
            ≡ none)
  unfolding blacklist_refresh_token
  revoked_reads t t' user_id jti s up le =
      let k = key_of user_id jti in
      let (up1, (b, answer)) = cache_laws.delete_up t k s.store up in
      rw answer (up1, cache_laws.delete_removes t t' k k s.store up le ∙ rw (str_eq_refl k) refl)

  -- revoking all tokens of a user of whom no list is kept touches no token
  all_reads :
      (t t' user_id : ℕ) (jti : String) (s : St)
      → Up s.store
      → t ≤ t'
      → view t s.store (active_key jwt secret_key str_id cache user_id) ≡ none
      → Up (blacklist_all_user_tokens jwt secret_key str_id cache t user_id s).1.store
        × (view t'
              (blacklist_all_user_tokens jwt secret_key str_id cache t user_id s).1.store
              (key_of user_id jti)
            ≡ view t' s.store (key_of user_id jti))
  unfolding blacklist_all_user_tokens delete_tokens
  all_reads t t' user_id jti s up le unlisted =
      let k = key_of user_id jti in
      let a = active_key jwt secret_key str_id cache user_id in
      let up1 = cache_laws.get_up t a s.store up in
      let c = (cache.get t a s.store).1 in
      let (up2, (b, answer)) = cache_laws.delete_up t a c up1 in
      rw (cache_laws.get_reads t a s.store up, unlisted, answer)
        (
          up2,
          cache_laws.delete_removes t t' a k c up1 le
              ∙ rw ((keys_apart user_id user_id jti).1) refl
              ∙ cache_laws.get_keeps t t' a k s.store up le,
        )

  -- Over a cache that is up, a refresh token that is made for a user verifies as of that user until
  -- it is over, and no longer once it is revoked by its id. If no list of the tokens of the user is
  -- kept, which is so as no method writes one, the call that revokes all tokens of the user leaves
  -- it as valid as it was.
  pub refresh_lifetime :
      (now t t' user_id : ℕ) (s : St)
      → Known (refresh_claims now user_id (jwt.token_hex s.draws))
      → Up s.store
      → 0 < user_id
      → now ≤ t
      → t ≤ t'
      → t' < over_at now
      → view t s.store (active_key jwt secret_key str_id cache user_id) ≡ none
      → let jti = jwt.token_hex s.draws in
        let token = token_at now user_id jti in
        let (r, s1) = generate_refresh_token jwt secret_key str_id cache now user_id s in
        (r ≡ ok (token, jti))
        × (verified_at t token s1 ≡ ok (some (user_id, jti)))
        × (verified_at t' token
              (blacklist_refresh_token jwt secret_key str_id cache t user_id jti s1).1
            ≡ ok none)
        × (verified_at t' token
              (blacklist_all_user_tokens jwt secret_key str_id cache t user_id s1).1
            ≡ ok (some (user_id, jti)))
  refresh_lifetime now t t' user_id s known up positive le le' early unlisted =
      let jti = jwt.token_hex s.draws in
      let token = token_at now user_id jti in
      let s1 = made now user_id s in
      let up1 = made-Up now user_id s up in
      let set = laws.token_hex_lem s.draws in
      let t_early : t < over_at now = omega (arith, le', early) in
      let t'_late : now ≤ t' = omega (arith, le, le') in
      let kept : (at : ℕ)
          → now ≤ at
          → at < over_at now
          → view at s1.store (key_of user_id jti) ≡ some (a_token token) =
        λ at since before.
          made_reads now at user_id s (key_of user_id jti) up since before
          ∙ rw (str_eq_refl (key_of user_id jti)) refl in
      let is_own : is_cached token (some (a_token token)) ≡ true =
        rw (laws.token_of_lem (refresh_claims now user_id jti) secret_key known, str_eq_refl token)
          refl in
      let still_unlisted : view t s1.store (active_key jwt secret_key str_id cache user_id) ≡ none =
        made_reads now t user_id s (active_key jwt secret_key str_id cache user_id) up le t_early
        ∙ rw ((keys_apart user_id user_id jti).0) unlisted in
      let (up2, gone) = revoked_reads t t' user_id jti s1 up1 le' in
      let (up3, same) = all_reads t t' user_id jti s1 up1 le' still_unlisted in
      rw (generates now user_id s known up) (
        refl,
        verifies now t user_id jti s1 (some (a_token token)) known set positive le t_early up1
              (kept t le t_early)
            ∙ rw is_own refl,
        verifies now t' user_id jti
            (blacklist_refresh_token jwt secret_key str_id cache t user_id jti s1).1 none known set
            positive t'_late early up2 gone,
        verifies now t' user_id jti
              (blacklist_all_user_tokens jwt secret_key str_id cache t user_id s1).1
              (some (a_token token)) known set positive t'_late early up3
              (same ∙ kept t' t'_late early)
            ∙ rw is_own refl,
      )
