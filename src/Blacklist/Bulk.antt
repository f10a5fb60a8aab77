-- ===== src/Blacklist/Bulk.antt =====
-- `bulk_blacklist` of apps/core/jwt/blacklist_service.py.
use taunggyi_city_church.Common.{
  ℕ, ◌+◌, ◌*◌, ◌≤◌, ◌<◌, ◌≡◌, refl, ◌∙◌, ap, Bool, true, false, ◌||◌, Option, none, some, List, [],
  ◌∷◌, String, arith, str_eq, is_some, or_else, ◌⊎◌, inl, inr, Bool-cases,
}
use taunggyi_city_church.Common.Exec.{ok}
use taunggyi_city_church.Common.Dict.{Dict, lookup, insert, lookup-insert}
use taunggyi_city_church.Cache.Breaker.{ticks}
use taunggyi_city_church.Cache.Api.{CacheApi, IsCache}
use taunggyi_city_church.Blacklist.{
  BlacklistRecord, Service, TokenInfo, Found, the, get_key, is_blacklisted, blacklist_each,
  bulk_blacklist,
}
use taunggyi_city_church.Blacklist.Holds.{
  Blacklisted, found_of, blacklist_token_up, is_blacklisted_up,
}

abbrev pub is_among : String → List TokenInfo → Bool
is_among jti [] = false
is_among jti (token ∷ tokens) = str_eq token.jti jti || is_among jti tokens

-- Every token's time is positive and lasts from `now` over t.
abbrev pub Lasts : ℕ → ℕ → ℕ → List TokenInfo → Type 0
Lasts now t default_expiry [] = Unit
Lasts now t default_expiry (token ∷ tokens) =
    (0 < or_else token.expires_in default_expiry)
    × (t < now + or_else token.expires_in default_expiry * ticks)
    × Lasts now t default_expiry tokens

first_or_marked :
    {A : Type 0} (first later : Bool)
    → later ≡ false
    → ((first || later) ≡ true) ⊎ A
    → (first ≡ true) ⊎ A
first_or_marked first later h (inl e) = inl (ground (arith, h, e))
first_or_marked first later h (inr a) = inr a

module _ (cache : CacheApi BlacklistRecord) (Up : CacheApi.State cache → Type 0)
    (view : ℕ → CacheApi.State cache → String → Option BlacklistRecord)
    (is_cache : IsCache cache Up view) where
  -- the token has a record at t, and a success among the results
  abbrev IsMarked : ℕ → String → Service cache → Dict Bool → Type 0
  IsMarked t jti s results =
      (is_some (view t s.cache (get_key s.prefix jti)) ≡ true) × (lookup jti results ≡ some true)

  IsMarked-step :
      (now t : ℕ) (jti other : String) (expires_in : ℕ) (reason : String) (s s1 : Service cache)
      (results : Dict Bool)
      → now ≤ t
      → t < now + expires_in * ticks
      → Blacklisted cache Up view is_cache now jti expires_in reason s s1
      → (str_eq jti other ≡ true) ⊎ IsMarked t other s results
      → IsMarked t other s1 (insert jti true results)
  IsMarked-step now t jti other expires_in reason s s1 results le lasts d h =
      let read = ap (λ p. view t s1.cache (get_key p other)) d.prefix ∙ d.reads t other le in
      let noted = lookup-insert jti other true results in
      rw (read, noted) (ground (arith, h, lasts))

  -- what the loop leaves of the tokens that it was given or that were marked before
  abbrev LeavesMarked :
      ℕ → List TokenInfo → Service cache → Dict Bool → Service cache → Dict Bool → Type 0
  LeavesMarked t tokens s results s' results' =
      (jti : String)
      → (is_among jti tokens ≡ true) ⊎ IsMarked t jti s results
      → IsMarked t jti s' results'

  blacklist_each_lem :
      (now t default_expiry : ℕ) (tokens : List TokenInfo) (s : Service cache) (results : Dict Bool)
      → Up s.cache
      → now ≤ t
      → Lasts now t default_expiry tokens
      → (results' : Dict Bool) × (s' : Service cache) × (blacklist_each cache now tokens
            default_expiry results s
          ≡ (ok results', s'))
        × Up s'.cache
        × LeavesMarked t tokens s results s' results'
  unfolding blacklist_each
  blacklist_each_lem now t default_expiry [] s results up le lasts =
      (results, s, refl, up, λ jti h. ground (arith, h))
  blacklist_each_lem now t default_expiry (token ∷ tokens) s results up le lasts =
      let expires_in = or_else token.expires_in default_expiry in
      let reason = or_else token.reason "bulk_revoked" in
      let (positive, long, rest) = lasts in
      let (s1, e, d) =
        blacklist_token_up cache Up view is_cache now token.jti expires_in reason s up positive in
      let results1 = insert token.jti true results in
      let (results', s', e', up', marked) =
        blacklist_each_lem now t default_expiry tokens s1 results1 d.up le rest in
      (
        results',
        s',
        rw e e',
        up',
        λ jti h. marked jti (elim (Bool-cases (is_among jti tokens)) [
          | inl later ↦ inl later
          | inr first ↦ inr (
              IsMarked-step now t token.jti jti expires_in reason s s1 results le long d
                (first_or_marked (str_eq token.jti jti) (is_among jti tokens) first h))
        ]),
      )

  found_some :
      (o : Option BlacklistRecord)
      → is_some o ≡ true
      → (found : Found) × (ok (found_of o) ≡ ok (true, found))
  found_some none h = absurd (ground (arith, h))
  found_some (some r) h = (the r, refl)

  -- While the cache is up, every token of a bulk call whose times are all positive is reported as
  -- done, and reads as blacklisted at every time that is before the end of all their times.
  pub bulk_blacklists :
      (now t default_expiry : ℕ) (tokens : List TokenInfo) (s : Service cache)
      → Up s.cache
      → now ≤ t
      → Lasts now t default_expiry tokens
      → (results : Dict Bool) × (s' : Service cache) × (bulk_blacklist cache now tokens
            default_expiry s
          ≡ (ok results, s'))
        × ((jti : String)
            → is_among jti tokens ≡ true
            → (lookup jti results ≡ some true)
              × ((found : Found) × ((is_blacklisted cache t jti s').0 ≡ ok (true, found))))
  unfolding bulk_blacklist
  bulk_blacklists now t default_expiry tokens s up le lasts =
      let (results, s', e, up', marked) =
        blacklist_each_lem now t default_expiry tokens s [] up le lasts in
      (
        results,
        s',
        e,
        λ jti h.
            let (read, noted) = marked jti (inl h) in
            let (found, same) = found_some (view t s'.cache (get_key s'.prefix jti)) read in
            (noted, (found, is_blacklisted_up cache Up view is_cache t jti s' up' ∙ same)),
      )
