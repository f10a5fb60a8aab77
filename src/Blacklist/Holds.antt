-- ===== src/Blacklist/Holds.antt =====
-- What `is_blacklisted` of apps/core/jwt/blacklist_service.py answers, and after the other operations.
use taunggyi_city_church.Common.{
  ℕ, ◌+◌, ◌*◌, ◌≤◌, ◌<◌, ◌≡◌, refl, ◌∙◌, ap, Bool, true, false, Option, none, some, String, arith,
  ltb, str_eq, eq_iff, if◌then◌else◌, Bool-cases, inl, inr, ◌↔◌,
}
use taunggyi_city_church.Common.Exec.{Outcome, ok, raised, continue, handle}
use taunggyi_city_church.Common.Text.{◌:::◌, :::-cancel_left}
use taunggyi_city_church.Cache.Breaker.{ticks}
use taunggyi_city_church.Cache.Api.{CacheApi, IsCache, stored}
use taunggyi_city_church.Blacklist.{
  BlacklistRecord, Service, Found, nothing, unavailable, the, get_key, record_of, blacklist_token,
  is_blacklisted, remove_from_blacklist, answer,
}

-- Different tokens have different keys.
pub get_key-eq :
    (prefix jti other : String)
    → str_eq (get_key prefix jti) (get_key prefix other) ≡ str_eq jti other
unfolding get_key
get_key-eq prefix jti other = elim (Bool-cases (str_eq jti other)) [
  | inl same ↦ rw ((eq_iff jti other).0 same) (
      ground (
        arith,
        (eq_iff other other).1 refl,
        (eq_iff (get_key prefix other) (get_key prefix other)).1 refl,
      ))
  | inr apart ↦ ground (
    arith,
    apart,
    eq_iff jti other,
    eq_iff (get_key prefix jti) (get_key prefix other),
    :::-cancel_left "tokens" jti other,
    :::-cancel_left prefix ("tokens" ::: jti) ("tokens" ::: other),
  )
]

abbrev pub found_of : Option BlacklistRecord → Bool × Found
found_of (some r) = (true, the r)
found_of none = (false, nothing)

-- the answer, by what the cache answered
abbrev verdict : Outcome (Option BlacklistRecord) → Bool × Found
verdict (ok o) = found_of o
verdict (raised e) = (true, unavailable)

IsNothing : Outcome (Option BlacklistRecord) → Type 0
IsNothing r = r ≡ ok none

verdict-false : (r : Outcome (Option BlacklistRecord)) → ((verdict r).0 ≡ false) ↔ IsNothing r
unfolding IsNothing
verdict-false (ok (some r)) = ground arith
verdict-false (ok none) = (λ _. refl, λ _. refl)
verdict-false (raised e) = ground arith

module _ (cache : CacheApi BlacklistRecord) where
  answered :
      (r : Outcome (Option BlacklistRecord)) (s : Service cache)
      → let done = continue r (answer cache) s in
        (handle done.0 (λ e s1. (ok (true, unavailable), s1)) done.1).0 ≡ ok (verdict r)
  answered (ok (some r)) s = refl
  answered (ok none) s = refl
  answered (raised e) s = refl

  is_blacklisted_lem :
      (now : ℕ) (jti : String) (s : Service cache)
      → (is_blacklisted cache now jti s).0
        ≡ ok (verdict (cache.get now (get_key s.prefix jti) s.cache).0)
  unfolding is_blacklisted
  is_blacklisted_lem now jti s =
      let done = cache.get now (get_key s.prefix jti) s.cache in
      answered done.0 (record s { cache = done.1 })

  -- Whatever the cache answers or raises, a check returns, and it says that the token is not
  -- blacklisted exactly when the cache answered that there is no record of it.
  pub fails_secure :
      (now : ℕ) (jti : String) (s : Service cache)
      → (b : Bool) × (found : Found) × ((is_blacklisted cache now jti s).0 ≡ ok (b, found))
        × ((b ≡ false) ↔ ((cache.get now (get_key s.prefix jti) s.cache).0 ≡ ok none))
  unfolding IsNothing
  fails_secure now jti s =
      let r = (cache.get now (get_key s.prefix jti) s.cache).0 in
      ((verdict r).0, (verdict r).1, is_blacklisted_lem now jti s, verdict-false r)

module _ (cache : CacheApi BlacklistRecord) (Up : CacheApi.State cache → Type 0)
    (view : ℕ → CacheApi.State cache → String → Option BlacklistRecord)
    (is_cache : IsCache cache Up view) where
  pub is_blacklisted_up :
      (now : ℕ) (jti : String) (s : Service cache)
      → Up s.cache
      → (is_blacklisted cache now jti s).0 ≡ ok (found_of (view now s.cache (get_key s.prefix jti)))
  is_blacklisted_up now jti s up =
      is_blacklisted_lem cache now jti s
      ∙ ap (λ (r : Outcome (Option BlacklistRecord)). ok (verdict r))
          (is_cache.get_reads now (get_key s.prefix jti) s.cache up)

  -- what `blacklist_token` leaves
  pub record Blacklisted (now : ℕ) (jti : String) (expires_in : ℕ) (reason : String)
      (s s' : Service cache) : Type 0 where
    pub up : Up s'.cache
    pub prefix : s'.prefix ≡ s.prefix
    pub reads :
        (t : ℕ) (other : String)
        → now ≤ t
        → view t s'.cache (get_key s.prefix other) ≡ (
            if str_eq jti other
            then stored now expires_in (record_of now jti expires_in reason) t
            else view t s.cache (get_key s.prefix other))

  pub blacklist_token_up :
      (now : ℕ) (jti : String) (expires_in : ℕ) (reason : String) (s : Service cache)
      → Up s.cache
      → 0 < expires_in
      → (s' : Service cache) × (blacklist_token cache now jti expires_in reason s ≡ (ok true, s'))
        × Blacklisted now jti expires_in reason s s'
  unfolding blacklist_token
  blacklist_token_up now jti expires_in reason s up positive =
      let key = get_key s.prefix jti in
      let v = record_of now jti expires_in reason in
      let (up1, e) = is_cache.set_up now expires_in key v s.cache up positive in
      (
        record s {
          cache = (cache.set now key v expires_in s.cache).1;
          metrics = record (s.metrics) {
            blacklist_operations = s.metrics.blacklist_operations + 1;
          };
        },
        rw e refl,
        record {
          up = up1;
          prefix = refl;
          reads = λ t other le.
              is_cache.set_writes now expires_in t key (get_key s.prefix other) v s.cache up
                positive le
              ∙ ap
                  (λ b.
                    if b
                    then stored now expires_in v t
                    else view t s.cache (get_key s.prefix other))
                  (get_key-eq s.prefix jti other);
        },
      )

  stored_found :
      (now ttl t : ℕ) (r : BlacklistRecord) (same : Bool) (o : Option BlacklistRecord)
      → ok (found_of (if same then stored now ttl r t else o)) ≡ (
          if same
          then ok (if ltb t (now + ttl * ticks) then (true, the r) else (false, nothing))
          else ok (found_of o))
  stored_found now ttl t r same o = ground arith

  removed_found :
      (same : Bool) (o : Option BlacklistRecord)
      → ok (found_of (if same then none else o))
        ≡ (if same then ok (false, nothing) else ok (found_of o))
  removed_found true o = refl
  removed_found false o = refl

  -- While the cache is up, a token that is blacklisted for a positive time reads as blacklisted, with
  -- the record that was made, until that time is over and not after, and every other token reads
  -- later as it would have without the call. (So blacklisting a token again for a shorter time ends
  -- sooner.) Taken from the blacklist, it reads as not blacklisted, and the others are unchanged.
  pub blacklisted_until :
      (now t : ℕ) (jti : String) (expires_in : ℕ) (reason : String) (other : String)
      (s : Service cache)
      → Up s.cache
      → 0 < expires_in
      → now ≤ t
      → (s1 s2 : Service cache) × (b : Bool) × (blacklist_token cache now jti expires_in reason s
          ≡ (ok true, s1))
        × ((is_blacklisted cache t other s1).0 ≡ (
            if str_eq jti other
            then ok (
                if ltb t (now + expires_in * ticks)
                then (true, the (record_of now jti expires_in reason))
                else (false, nothing))
            else (is_blacklisted cache t other s).0))
        × (remove_from_blacklist cache now jti s1 ≡ (ok b, s2))
        × ((is_blacklisted cache t other s2).0 ≡ (
            if str_eq jti other then ok (false, nothing) else (is_blacklisted cache t other s1).0))
  unfolding remove_from_blacklist
  blacklisted_until now t jti expires_in reason other s up positive le =
      let (s1, e, d) = blacklist_token_up now jti expires_in reason s up positive in
      let key = get_key s1.prefix jti in
      let (up2, (b, gone)) = is_cache.delete_up now key s1.cache d.up in
      let s2 : Service cache = record s1 { cache = (cache.delete now key s1.cache).1 } in
      (
        s1,
        s2,
        b,
        e,
        is_blacklisted_up t other s1 d.up
            ∙ ap (λ p. ok (found_of (view t s1.cache (get_key p other)))) d.prefix
            ∙ ap (λ o. ok (found_of o)) (d.reads t other le)
            ∙ rw (is_blacklisted_up t other s up) (
                stored_found now expires_in t (record_of now jti expires_in reason)
                  (str_eq jti other) (view t s.cache (get_key s.prefix other))),
        rw gone refl,
        is_blacklisted_up t other s2 up2
            ∙ ap (λ o. ok (found_of o))
                (is_cache.delete_removes now t key (get_key s1.prefix other) s1.cache d.up le)
            ∙ ap
                (λ c. ok (found_of (if c then none else view t s1.cache (get_key s1.prefix other))))
                (get_key-eq s1.prefix jti other)
            ∙ rw (is_blacklisted_up t other s1 d.up)
                (removed_found (str_eq jti other) (view t s1.cache (get_key s1.prefix other))),
      )
