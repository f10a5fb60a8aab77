-- ===== src/CacheKeys.antt =====
-- apps/core/cache/cache_keys.py: `CacheKeyBuilder`, the keys of the cache.
mod Tests
use Prim.Native.String.{◌++◌}
use taunggyi_city_church.Common.{Option, none, some, List, [], ◌∷◌, String, str_eq, if◌then◌else◌}
use taunggyi_city_church.Common.Text.{◌:::◌}

pub data CacheNamespace : Type 0 where
  user_namespace session_namespace rate_limit_namespace blacklist_namespace config_namespace :
      CacheNamespace

unfoldable pub namespace_value : CacheNamespace → String
namespace_value user_namespace = "user"
namespace_value session_namespace = "session"
namespace_value rate_limit_namespace = "rate_limit"
namespace_value blacklist_namespace = "blacklist"
namespace_value config_namespace = "config"

-- `":".join` of a first part and of those after it that are not None
unfoldable pub join_parts : String → List (Option String) → String
join_parts part [] = part
join_parts part (none ∷ rest) = join_parts part rest
join_parts part (some next ∷ rest) = part ::: join_parts next rest

-- An empty version is none.
unfoldable pub build_key : CacheNamespace → List (Option String) → Option String → String
build_key namespace parts version =
    let key : String = join_parts (namespace_value namespace) parts in
    elim version [ none ↦ key | some v ↦ if str_eq v "" then key else key ++ (":v" ++ v) ]

-- The parts of a key are a kind and an id; the version of a key is "1" where none is given.
unfoldable pub user_profile : String → String → String
user_profile user_id version =
    build_key user_namespace (some "profile" ∷ some user_id ∷ []) (some version)

unfoldable pub user_sessions : String → String → String
user_sessions user_id version =
    build_key user_namespace (some "sessions" ∷ some user_id ∷ []) (some version)

unfoldable pub user_by_email : String → String → String
user_by_email email version =
    build_key user_namespace (some "email" ∷ some email ∷ []) (some version)

unfoldable pub session_token : String → String → String
session_token token_id version =
    build_key session_namespace (some "token" ∷ some token_id ∷ []) (some version)

unfoldable pub rate_limit : String → String → String → String
rate_limit identifier action version =
    build_key rate_limit_namespace (some action ∷ some identifier ∷ []) (some version)

unfoldable pub blacklist_token : String → String → String
blacklist_token jti version =
    build_key blacklist_namespace (some "token" ∷ some jti ∷ []) (some version)

unfoldable pub config_jwt_keys : String → String
config_jwt_keys version = build_key config_namespace (some "jwt_keys" ∷ []) (some version)
