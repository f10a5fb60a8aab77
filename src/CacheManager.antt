-- ===== src/CacheManager.antt =====
-- `CacheManager` of apps/core/cache/cache_manager.py, over the cache that it is given: the keys are
-- those of `CacheKeys`. Its reports of health and statistics pass those of the cache on.
mod Tests
use Prim.Native.String.{◌++◌}
use taunggyi_city_church.Common.{
  ℕ, Bool, true, false, Option, none, some, List, [], ◌∷◌, map, String, str_eq, ◌==◌, if◌then◌else◌,
}
use taunggyi_city_church.Common.Exec.{Exec, pure, catch, ◌>>=◌, ◌>>◌}
use taunggyi_city_church.Common.Dict.{Dict, lookup, insert}
use taunggyi_city_church.CacheKeys.{
  CacheNamespace, namespace_value, user_profile, user_sessions, user_by_email, session_token,
}

-- the operations of a cache that the manager calls, at a time
pub record ManagedCache (S V : Type 0) : Type 0 where
  pub get : ℕ → String → Exec S (Option V)
  pub set : ℕ → String → V → ℕ → Exec S Bool
  pub delete : ℕ → String → Exec S Bool
  pub get_many : ℕ → List String → Exec S (Dict V)
  pub flush_pattern : ℕ → String → Exec S ℕ

-- `f"{namespace.value}:*:v{version}" if version else f"{namespace.value}:*"`
abbrev pub pattern_of : CacheNamespace → String → String
pattern_of namespace version =
    if str_eq version ""
    then namespace_value namespace ++ ":*"
    else namespace_value namespace ++ (":*:v" ++ version)

module _ {S V : Type 0} (cache : ManagedCache S V) (default_ttl : ℕ) (now : ℕ) where
  -- `ttl or self.default_ttl`
  abbrev pub ttl_or_default : Option ℕ → ℕ
  ttl_or_default none = default_ttl
  ttl_or_default (some ttl) = if ttl == 0 then default_ttl else ttl

  unfoldable pub get_user : String → String → Exec S (Option V)
  get_user user_id version = cache.get now (user_profile user_id version)

  unfoldable pub set_user : String → V → Option ℕ → String → Exec S Bool
  set_user user_id user_data ttl version =
      cache.set now (user_profile user_id version) user_data (ttl_or_default ttl)

  unfoldable pub delete_user : String → String → Exec S Bool
  delete_user user_id version = cache.delete now (user_profile user_id version)

  unfoldable pub get_user_by_email : String → String → Exec S (Option V)
  get_user_by_email email version = cache.get now (user_by_email email version)

  unfoldable pub set_user_by_email : String → V → Option ℕ → String → Exec S Bool
  set_user_by_email email user_data ttl version =
      cache.set now (user_by_email email version) user_data (ttl_or_default ttl)

  unfoldable pub get_session : String → String → Exec S (Option V)
  get_session session_id version = cache.get now (session_token session_id version)

  unfoldable pub set_session : String → V → Option ℕ → String → Exec S Bool
  set_session session_id session_data ttl version =
      cache.set now (session_token session_id version) session_data (ttl_or_default ttl)

  unfoldable pub delete_session : String → String → Exec S Bool
  delete_session session_id version = cache.delete now (session_token session_id version)

  -- The entry of a user under their email is not deleted.
  unfoldable pub invalidate_user_caches : String → String → Exec S Bool
  unfolding delete_user
  invalidate_user_caches user_id version =
      catch
        (do
          delete_user user_id version
          cache.delete now (user_sessions user_id version)
          pure true)
        (λ e. pure false)

  -- the loop over the users, of the results by their keys
  unfoldable pub map_back : List String → String → Dict V → Dict V → Dict V
  map_back [] version results users = users
  map_back (user_id ∷ rest) version results users =
      elim (lookup (user_profile user_id version) results) [
        | none ↦ map_back rest version results users
        | some v ↦ map_back rest version results (insert user_id v users)
      ]

  unfoldable pub get_many_users : List String → String → Exec S (Dict V)
  unfolding map_back
  get_many_users user_ids version = do
    results ← cache.get_many now (map (λ user_id. user_profile user_id version) user_ids)
    pure (map_back user_ids version results [])

  unfoldable pub clear_namespace : CacheNamespace → String → Exec S ℕ
  clear_namespace namespace version =
      catch (cache.flush_pattern now (pattern_of namespace version)) (λ e. pure 0)
