-- ===== src/KeyRotation/Rotate.antt =====
-- What `initialize` and `rotate_keys` of apps/core/jwt/key_rotation.py leave.
use taunggyi_city_church.Common.{
  ℕ, suc, ◌*◌, ◌<◌, ◌≡◌, refl, Bool, true, false, Option, none, some, List, [], ◌∷◌, ◌++◌, String,
  map, str_eq, str_eq_refl, eq_iff, arith, if◌then◌else◌,
}
use taunggyi_city_church.Common.Dict.{lookup, insert, erase}
use taunggyi_city_church.Common.Exec.{
  Outcome, ok, raised, Exec, continue, handle, catch, pure, ◌>>=◌,
}
use taunggyi_city_church.Cache.Api.{CacheApi}
use taunggyi_city_church.KeyRotation.{
  active, previous, KeyMetadata, KeyPair, KeysData, KeyRotationManager, save_keys_to_cache,
  generate_new_key_pair, mark_previous, remove_keys, cleanup_old_keys, rotate_keys, with_new_key,
  on_cache,
}

-- A key with what is known of it.
pub record Key : Type 0 where
  pub id : String
  pub pair : KeyPair
  pub metadata : KeyMetadata

abbrev pub retire : Key → Key
retire k = record k { metadata = record (k.metadata) { status = previous } }

abbrev pub new_key : ℕ → String → KeyPair → Key
new_key now id pair = record {
  id = id;
  pair = pair;
  metadata = record { created_at = now; key_size = 2048; status = active };
}

module _ (cache : CacheApi KeysData) (rsa : ℕ → ℕ → KeyPair) (token_urlsafe : ℕ → String) where
  -- A manager that holds some keys, one of them the current.
  abbrev pub holding :
      ℕ
      → Bool
      → ℕ
      → CacheApi.State cache
      → List Key
      → String
      → KeyRotationManager (CacheApi.State cache)
  holding interval has_cache draws c keys current = record {
    rotation_interval = interval;
    current_key_id = some current;
    key_pairs = map (λ k. (k.id, k.pair)) keys;
    key_metadata = map (λ k. (k.id, k.metadata)) keys;
    initialized = true;
    has_cache = has_cache;
    draws = draws;
    cache = c;
  }

  saved :
      (r : Outcome Bool) (s : KeyRotationManager (CacheApi.State cache))
      → let done = continue r (λ b. pure tt) s in handle done.0 (λ e. pure tt) done.1 ≡ (ok tt, s)
  saved (ok b) s = refl
  saved (raised e) s = refl

  saved_if :
      (b : Bool) (m : Exec (CacheApi.State cache) Bool)
      (s : KeyRotationManager (CacheApi.State cache))
      → (c : CacheApi.State cache) × ((if b
            then catch (on_cache cache rsa token_urlsafe m >>= λ _. pure tt) (λ e. pure tt) s
            else (ok tt, s))
          ≡ (ok tt, record s { cache = c }))
  saved_if true m s = ((m s.cache).1, saved (m s.cache).0 (record s { cache = (m s.cache).1 }))
  saved_if false m s = (s.cache, refl)

  -- Saving changes nothing but the cache, whatever it answers.
  save_lem :
      (now : ℕ) (s : KeyRotationManager (CacheApi.State cache))
      → (c : CacheApi.State cache) × (save_keys_to_cache cache rsa token_urlsafe now s
          ≡ (ok tt, record s { cache = c }))
  unfolding save_keys_to_cache
  save_lem now s =
      saved_if s.has_cache
        (cache.set now "jwt:keys"
          (record {
            key_pairs = s.key_pairs;
            key_metadata = s.key_metadata;
            current_key_id = s.current_key_id;
          })
          (s.rotation_interval * 2))
        s

  pub generate_lem :
      (now : ℕ) (s : KeyRotationManager (CacheApi.State cache))
      → (c : CacheApi.State cache) × (generate_new_key_pair cache rsa token_urlsafe now s ≡ (
        ok (token_urlsafe s.draws),
        record (with_new_key cache rsa token_urlsafe now 2048 s) { cache = c },
      ))
  unfolding generate_new_key_pair
  generate_lem now s =
      let (c, e) = save_lem now (with_new_key cache rsa token_urlsafe now 2048 s) in (c, rw e refl)

  module _ (interval draws : ℕ) (has_cache : Bool) (c : CacheApi.State cache) (b n : Key) where
    mark_two :
        str_eq b.id n.id ≡ false
        → mark_previous cache rsa token_urlsafe n.id
            (b.id ∷ n.id ∷ [])
            (holding interval has_cache draws c (b ∷ n ∷ []) n.id)
          ≡ (ok tt, holding interval has_cache draws c (retire b ∷ n ∷ []) n.id)
    unfolding mark_previous lookup insert
    mark_two apart = ground (arith, apart, str_eq_refl b.id, str_eq_refl n.id)

    mark_three :
        (a : Key)
        → str_eq a.id b.id ≡ false
        → str_eq a.id n.id ≡ false
        → str_eq b.id n.id ≡ false
        → mark_previous cache rsa token_urlsafe n.id
            (a.id ∷ b.id ∷ n.id ∷ [])
            (holding interval has_cache draws c (a ∷ b ∷ n ∷ []) n.id)
          ≡ (ok tt, holding interval has_cache draws c (retire a ∷ retire b ∷ n ∷ []) n.id)
    unfolding mark_previous lookup insert
    mark_three a ab an bn =
        ground (arith, ab, an, bn, str_eq_refl a.id, str_eq_refl b.id, str_eq_refl n.id)

    cleanup_three :
        (now : ℕ) (a : Key)
        → str_eq a.id b.id ≡ false
        → str_eq a.id n.id ≡ false
        → str_eq b.id n.id ≡ false
        → a.metadata.created_at < b.metadata.created_at
        → b.metadata.created_at < n.metadata.created_at
        → (c' : CacheApi.State cache) × (cleanup_old_keys cache rsa token_urlsafe now
              (holding interval has_cache draws c (a ∷ b ∷ n ∷ []) n.id)
            ≡ (ok tt, holding interval has_cache draws c' (b ∷ n ∷ []) n.id))
    unfolding cleanup_old_keys remove_keys lookup erase
    cleanup_three now a ab an bn older old =
        let (c', e) = save_lem now (holding interval has_cache draws c (b ∷ n ∷ []) n.id) in
        (
          c',
          ground (
            arith,
            older,
            old,
            ab,
            an,
            bn,
            e,
            str_eq_refl a.id,
            str_eq_refl b.id,
            str_eq_refl n.id,
            eq_iff b.id a.id,
            eq_iff a.id b.id,
            eq_iff n.id a.id,
            eq_iff a.id n.id,
            eq_iff n.id b.id,
            eq_iff b.id n.id,
          ),
        )

  -- the new key after the given number of draws
  abbrev pub fresh : ℕ → ℕ → Key
  fresh now draws = new_key now (token_urlsafe draws) (rsa draws 2048)

  -- an older key, if there is one, and the current one
  abbrev pub keys_with : Option Key → Key → List Key
  keys_with none b = b ∷ []
  keys_with (some a) b = a ∷ b ∷ []

  -- The older key has another name than the current and the new key, and is older.
  abbrev pub IsOlder : Option Key → Key → Key → Type 0
  IsOlder none b n = Unit
  IsOlder (some a) b n =
      (str_eq a.id b.id ≡ false)
      × (str_eq a.id n.id ≡ false)
      × (a.metadata.created_at < b.metadata.created_at)

  generated :
      (now interval draws : ℕ) (has_cache : Bool) (c : CacheApi.State cache) (older : Option Key)
      (b : Key)
      → str_eq b.id (token_urlsafe draws) ≡ false
      → IsOlder older b (fresh now draws)
      → (c' : CacheApi.State cache) × (generate_new_key_pair cache rsa token_urlsafe now
            (holding interval has_cache draws c (keys_with older b) b.id)
          ≡ (
            ok (token_urlsafe draws),
            holding interval has_cache
                (suc draws)
                c'
                (keys_with older b ++ fresh now draws ∷ [])
                (token_urlsafe draws),
          ))
  unfolding insert
  generated now interval draws has_cache c none b apart h =
      let (c', e) = generate_lem now (holding interval has_cache draws c (b ∷ []) b.id) in
      (c', ground (arith, e, apart))
  generated now interval draws has_cache c (some a) b apart h =
      let (c', e) = generate_lem now (holding interval has_cache draws c (a ∷ b ∷ []) b.id) in
      (c', ground (arith, e, apart, h))

  pub rotate_lem :
      (now interval draws : ℕ) (has_cache : Bool) (c : CacheApi.State cache) (older : Option Key)
      (b : Key)
      → str_eq b.id (token_urlsafe draws) ≡ false
      → b.metadata.created_at < now
      → IsOlder older b (fresh now draws)
      → (c' : CacheApi.State cache) × (rotate_keys cache rsa token_urlsafe now
            (holding interval has_cache draws c (keys_with older b) b.id)
          ≡ (
            ok (token_urlsafe draws),
            holding interval has_cache
                (suc draws)
                c'
                (retire b ∷ fresh now draws ∷ [])
                (token_urlsafe draws),
          ))
  unfolding rotate_keys cleanup_old_keys
  rotate_lem now interval draws has_cache c none b apart old h =
      let (c1, made) = generated now interval draws has_cache c none b apart h in
      (c1, rw (made, mark_two interval (suc draws) has_cache c1 b (fresh now draws) apart) refl)
  rotate_lem now interval draws has_cache c (some a) b apart old h =
      let n = fresh now draws in
      let (c1, made) = generated now interval draws has_cache c (some a) b apart h in
      let (c2, cleaned) =
        cleanup_three interval (suc draws) has_cache c1 (retire b) n now (retire a) h.0 h.1 apart
          h.2 old in
      (
        c2,
        rw (made, mark_three interval (suc draws) has_cache c1 b n a h.0 h.1 apart, cleaned) refl,
      )
