-- ===== src/CacheKeys/Tests.antt =====
-- Keys of apps/core/cache/cache_keys.py.
use taunggyi_city_church.Common.{none, some, [], ◌∷◌, ◌≡◌, refl}
use taunggyi_city_church.CacheKeys.{
  user_namespace, namespace_value, join_parts, build_key, user_profile, user_sessions,
  user_by_email, session_token, rate_limit, blacklist_token, config_jwt_keys,
}

user_keys :
    (user_profile "7" "1" ≡ "user:profile:7:v1")
    × (user_sessions "7" "2" ≡ "user:sessions:7:v2")
    × (user_by_email "a@b" "" ≡ "user:email:a@b")
unfolding user_profile user_sessions user_by_email build_key join_parts namespace_value
user_keys = (refl, refl, refl)

other_keys :
    (session_token "t" "1" ≡ "session:token:t:v1")
    × (rate_limit "ip" "login" "1" ≡ "rate_limit:login:ip:v1")
    × (blacklist_token "j" "1" ≡ "blacklist:token:j:v1")
    × (config_jwt_keys "1" ≡ "config:jwt_keys:v1")
    × (build_key user_namespace (none ∷ some "x" ∷ []) none ≡ "user:x")
unfolding session_token rate_limit blacklist_token config_jwt_keys build_key join_parts
    namespace_value
other_keys = (refl, refl, refl, refl, refl)
