-- ===== src/CacheManager/Tests.antt =====
-- Calls of `CacheManager` of apps/core/cache/cache_manager.py over a dict without times.
use taunggyi_city_church.Common.{ℕ, ◌≡◌, refl, true, none, some, List, [], ◌∷◌, String, is_some}
use taunggyi_city_church.Common.Exec.{ok, raised, redis_error}
use taunggyi_city_church.Common.Dict.{Dict, lookup, insert, erase}
use taunggyi_city_church.CacheKeys.{
  user_namespace, namespace_value, build_key, join_parts, user_profile, user_sessions,
}
use taunggyi_city_church.CacheManager.{
  ManagedCache, pattern_of, get_user, delete_user, invalidate_user_caches, get_many_users, map_back,
  clear_namespace,
}

abbrev found_in : List String → Dict ℕ → Dict ℕ
found_in [] d = []
found_in (k ∷ ks) d = elim (lookup k d) [ none ↦ found_in ks d | some v ↦ (k, v) ∷ found_in ks d ]

-- It never flushes: that call raises.
abbrev dict_cache : ManagedCache (Dict ℕ) ℕ
dict_cache = record {
  get = λ now k d. (ok (lookup k d), d);
  set = λ now k v ttl d. (ok true, insert k v d);
  delete = λ now k d. (ok (is_some (lookup k d)), erase k d);
  get_many = λ now ks d. (ok (found_in ks d), d);
  flush_pattern = λ now pattern_text d. (raised redis_error, d);
}

abbrev two_users : Dict ℕ
two_users = ("user:profile:7:v1", 70) ∷ ("user:sessions:7:v1", 1) ∷ ("user:profile:8:v1", 80) ∷ []

users_read :
    (get_user dict_cache 300 0 "7" "1" two_users ≡ (ok (some 70), two_users))
    × (get_many_users dict_cache 300 0 ("8" ∷ "9" ∷ "7" ∷ []) "1" two_users
        ≡ (ok (("8", 80) ∷ ("7", 70) ∷ []), two_users))
unfolding get_user get_many_users map_back user_profile build_key join_parts namespace_value lookup
    insert
users_read = (refl, refl)

user_gone :
    invalidate_user_caches dict_cache 300 0 "7" "1" two_users
    ≡ (ok true, ("user:profile:8:v1", 80) ∷ [])
unfolding invalidate_user_caches delete_user user_profile user_sessions build_key join_parts
    namespace_value erase
user_gone = refl

not_cleared :
    (clear_namespace dict_cache 300 0 user_namespace "1" two_users ≡ (ok 0, two_users))
    × (pattern_of user_namespace "1" ≡ "user:*:v1")
unfolding clear_namespace namespace_value
not_cleared = (refl, refl)
