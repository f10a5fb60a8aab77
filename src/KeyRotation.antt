-- ===== src/KeyRotation.antt =====
-- apps/core/jwt/key_rotation.py: `KeyRotationManager`. The making of RSA keys and of random texts and
-- the cache are parameters. The JWKS format and the report of the status are not modelled.
pub mod Rotate
pub mod Runs
pub mod Names
mod Tests
use taunggyi_city_church.Common.{
  ℕ, suc, ◌+◌, ◌*◌, Bool, true, false, not, ◌&&◌, Option, none, some, List, [], ◌∷◌, String, map,
  str_eq, ltb, leb, length, drop, is_some, or_else, if◌then◌else◌,
}
use taunggyi_city_church.Common.Dict.{Dict, lookup, insert, erase}
use taunggyi_city_church.Common.Exec.{
  runtime_error, key_error, Outcome, ok, raised, Exec, pure, raise, gets, catch, ◌>>=◌, ◌>>◌,
  modify, raise_if,
}
use taunggyi_city_church.Cache.Api.{CacheApi}

pub data KeyStatus : Type 0 where
  active previous : KeyStatus

-- The algorithm is always RS256.
pub record KeyMetadata : Type 0 where
  pub created_at : ℕ
  pub key_size : ℕ
  pub status : KeyStatus

-- a private and a public key
abbrev pub KeyPair : Type 0
KeyPair = String × String

-- what is cached; the time of the last update is never read
pub record KeysData : Type 0 where
  pub key_pairs : Dict KeyPair
  pub key_metadata : Dict KeyMetadata
  pub current_key_id : Option String

pub record KeyRotationManager (S : Type 0) : Type 0 where
  pub rotation_interval : ℕ
  pub current_key_id : Option String
  pub key_pairs : Dict KeyPair
  pub key_metadata : Dict KeyMetadata
  pub initialized : Bool
  pub has_cache : Bool
  pub draws : ℕ
  pub cache : S

-- The number of keys that `_cleanup_old_keys` keeps.
abbrev pub keep_count : ℕ
keep_count = 2

-- `self.key_metadata.get(k, {}).get('created_at', '')`: a missing time is before all others
abbrev pub created_of : Dict KeyMetadata → String → ℕ
created_of metadata k = elim (lookup k metadata) [ none ↦ 0 | some m ↦ suc (m.created_at) ]

-- `sorted(…, key=…, reverse=True)` keeps the order of equal ones.
abbrev pub insert_key : (String → ℕ) → String → List String → List String
insert_key time k [] = k ∷ []
insert_key time k (j ∷ js) =
    let rest = insert_key time k js in if ltb (time k) (time j) then j ∷ rest else k ∷ j ∷ js

abbrev pub newest_first : (String → ℕ) → List String → List String
newest_first time [] = []
newest_first time (k ∷ ks) = insert_key time k (newest_first time ks)

abbrev pub keys_of : {V : Type 0} → Dict V → List String
keys_of d = map (λ entry. entry.0) d

-- `if self.current_key_id`
abbrev pub is_named : Option String → Bool
is_named none = false
is_named (some k) = not (str_eq k "")

module _ (cache : CacheApi KeysData) (rsa : ℕ → ℕ → KeyPair) (token_urlsafe : ℕ → String) where
  abbrev pub Manager : Type 0
  Manager = KeyRotationManager (CacheApi.State cache)

  abbrev pub on_cache : {A : Type 0} → Exec (CacheApi.State cache) A → Exec Manager A
  on_cache m s = let (r, c) = m s.cache in (r, record s { cache = c })

  abbrev pub loaded : Option KeysData → Exec Manager Unit
  loaded none = pure tt
  loaded (some keys_data) = modify (λ s. record s {
    key_pairs = keys_data.key_pairs;
    key_metadata = keys_data.key_metadata;
    current_key_id = keys_data.current_key_id;
  })

  -- `_load_keys_from_cache`
  unfoldable pub load_keys_from_cache : ℕ → Exec Manager Unit
  load_keys_from_cache now = catch (on_cache (cache.get now "jwt:keys") >>= loaded) (λ e. pure tt)

  -- `_save_keys_to_cache`; every error is caught
  unfoldable pub save_keys_to_cache : ℕ → Exec Manager Unit
  save_keys_to_cache now s =
      if s.has_cache
      then catch
          (do
            on_cache (
                cache.set now "jwt:keys"
                  (record {
                    key_pairs = s.key_pairs;
                    key_metadata = s.key_metadata;
                    current_key_id = s.current_key_id;
                  })
                  (s.rotation_interval * 2))
            pure tt)
          (λ e. pure tt) s
      else (ok tt, s)

  -- the new key in its places
  abbrev pub with_new_key : ℕ → ℕ → Manager → Manager
  with_new_key now key_size s =
      let key_id = token_urlsafe s.draws in
      record s {
        key_pairs = insert key_id (rsa s.draws key_size) s.key_pairs;
        key_metadata =
            insert key_id (record { created_at = now; key_size = key_size; status = active })
              s.key_metadata;
        current_key_id = some key_id;
        draws = suc s.draws;
      }

  -- `_generate_new_key_pair`
  unfoldable pub generate_new_key_pair : ℕ → Exec Manager String
  generate_new_key_pair now s =
      let key_id = token_urlsafe s.draws in
      (do modify (with_new_key now 2048); save_keys_to_cache now; pure key_id) s

  unfoldable pub initialize : ℕ → Exec Manager Unit
  initialize now s =
      if s.initialized
      then (ok tt, s)
      else catch
          (do
            has_cache ← gets (λ s1. s1.has_cache)
            if has_cache then load_keys_from_cache now else pure tt
            current ← gets (λ s1. s1.current_key_id)
            if is_named current then pure "" else generate_new_key_pair now
            modify (λ s1. record s1 { initialized = true }))
          (λ e. generate_new_key_pair now >> modify (λ s1. record s1 { initialized = true })) s

  -- `self.key_metadata[key_id]['status'] = 'previous'`
  abbrev pub set_previous : String → Exec Manager Unit
  set_previous k s = elim (lookup k s.key_metadata) [
    | none ↦ (raised key_error, s)
    | some m ↦ (
      ok tt,
      record s { key_metadata = insert k (record m { status = previous }) s.key_metadata },
    )
  ]

  unfoldable pub mark_previous : String → List String → Exec Manager Unit
  mark_previous new_key_id [] = pure tt
  mark_previous new_key_id (k ∷ ks) = do
    if str_eq k new_key_id then pure tt else set_previous k
    mark_previous new_key_id ks

  -- `del self.key_pairs[key_id]` and `del self.key_metadata[key_id]`
  abbrev pub forget_key : String → Exec Manager Unit
  forget_key k s =
      let s1 : Manager = record s { key_pairs = erase k s.key_pairs } in
      elim (lookup k s.key_metadata) [
        | none ↦ (raised key_error, s1)
        | some m ↦ (ok tt, record s1 { key_metadata = erase k s.key_metadata })
      ]

  unfoldable pub remove_keys : List String → Exec Manager Unit
  remove_keys [] = pure tt
  remove_keys (k ∷ ks) = do
    current ← gets (λ s. s.current_key_id)
    if is_current k current then pure tt else forget_key k
    remove_keys ks
    where
      is_current : String → Option String → Bool
      is_current k none = false
      is_current k (some j) = str_eq k j

  -- `_cleanup_old_keys`
  unfoldable pub cleanup_old_keys : ℕ → Exec Manager Unit
  cleanup_old_keys now s =
      if leb (length s.key_pairs) keep_count
      then (ok tt, s)
      else (do
        remove_keys
            (drop keep_count (newest_first (created_of s.key_metadata) (keys_of s.key_pairs)))
        save_keys_to_cache now)
          s

  unfoldable pub rotate_keys : ℕ → Exec Manager String
  rotate_keys now = do
    initialized ← gets (λ s. s.initialized)
    raise_if (not initialized) runtime_error
    new_key_id ← generate_new_key_pair now
    pairs ← gets (λ s. s.key_pairs)
    mark_previous new_key_id (keys_of pairs)
    cleanup_old_keys now
    pure new_key_id

-- `get_current_private_key`
unfoldable pub get_current_private_key : {S : Type 0} → KeyRotationManager S → Option String
get_current_private_key s = elim s.current_key_id [
  | none ↦ none
  | some k ↦
      if str_eq k ""
      then none
      else (elim (lookup k s.key_pairs) [ none ↦ none | some pair ↦ some pair.0 ])
]

-- `key_id or self.current_key_id`
abbrev pub target_key : Option String → Option String → Option String
target_key none current = current
target_key (some k) current = if str_eq k "" then current else some k

unfoldable pub get_public_key : {S : Type 0} → Option String → KeyRotationManager S → Option String
get_public_key key_id s = elim (target_key key_id s.current_key_id) [
  | none ↦ none
  | some k ↦
      if str_eq k ""
      then none
      else (elim (lookup k s.key_pairs) [ none ↦ none | some pair ↦ some pair.1 ])
]

-- `get_all_public_keys`
unfoldable pub get_all_public_keys : {S : Type 0} → KeyRotationManager S → Dict String
get_all_public_keys s = map (λ entry. (entry.0, entry.1.1)) s.key_pairs
