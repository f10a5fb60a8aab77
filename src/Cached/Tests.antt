-- ===== src/Cached/Tests.antt =====
-- Keys and calls of the decorators of apps/core/cache/decorator.py, over a cache in memory.
use taunggyi_city_church.Common.{
  ℕ, suc, ◌≡◌, refl, Bool, true, false, Option, none, some, [], ◌∷◌, String,
}
use taunggyi_city_church.Common.Exec.{
  Outcome, Exec, Exn, ok, raised, key_error, value_error, other_error,
}
use taunggyi_city_church.Cache.Memory.{Memory, empty, memory, put_memory}
use taunggyi_city_church.CacheKeys.{user_namespace, build_key, join_parts, namespace_value}
use taunggyi_city_church.Cached.{
  typed, untyped, Call, World, format, plain, build_cache_key, cached, cache_invalidate,
  delete_keys,
}
use taunggyi_city_church.Cached.Untyped.{untyped_fails}

formats :
    (format plain "user:{user_id}" (("user_id", "7") ∷ []) ≡ ok "user:7")
    × (format plain "{{x}}" [] ≡ ok "{x}")
    × (format plain "user:{id}" (("user_id", "7") ∷ []) ≡ raised key_error)
    × (format plain "f:(1,):{}" [] ≡ raised other_error)
    × (format plain "user:{id" [] ≡ raised value_error)
unfolding format
formats = (refl, refl, refl, refl, refl)

abbrev read_7 : Call
read_7 = record {
  name = "get_by_id";
  args = "(repo, 7)";
  kwargs = "{}";
  bound_args = ok (("self", "repo") ∷ ("user_id", "7") ∷ []);
  bound_text = "{'self': repo, 'user_id': 7}";
}

abbrev by_id : Option String
by_id = some "user:{user_id}"

key_7 : build_cache_key read_7 by_id (typed user_namespace) "1" ≡ ok "user:user:7:v1"
unfolding build_cache_key format build_key join_parts namespace_value
key_7 = refl

key_of_other_name :
    build_cache_key read_7 (some "user:{id}") (typed user_namespace) "1"
    ≡ ok "user:get_by_id:{'self': repo, 'user_id': 7}:v1"
unfolding build_cache_key format build_key join_parts namespace_value
key_of_other_name = refl

-- a function that counts its runs and answers the count
abbrev counting : Exec ℕ ℕ
counting n = (ok (suc n), suc n)

abbrev never_none : ℕ → Bool
never_none n = false

abbrev start : World ℕ (Memory ℕ)
start = record { app = 0; cache = empty }

abbrev call_7 : ℕ → ℕ → World ℕ (Memory ℕ) → Outcome ℕ × World ℕ (Memory ℕ)
call_7 = cached memory never_none true by_id 300 (typed user_namespace) "1" read_7 counting

-- user 7 cached, and another user too
abbrev warm : World ℕ (Memory ℕ)
warm = record {
  app = 4;
  cache = put_memory 0 "user:user:8:v1" 80 300 (put_memory 0 "user:user:7:v1" 70 300 empty);
}

abbrev update_7 : Outcome ℕ × World ℕ (Memory ℕ)
update_7 =
    cache_invalidate memory never_none true ("user:{user_id}" ∷ []) (typed user_namespace) "1"
      read_7 counting 30 warm

update_7_deletes :
    (update_7.0 ≡ ok 5)
    × (update_7.1.cache 40 "user:user:7:v1" ≡ none)
    × (update_7.1.cache 40 "user:user:8:v1" ≡ some 80)
unfolding cache_invalidate delete_keys build_cache_key format build_key join_parts namespace_value
update_7_deletes = (refl, refl, refl)

hit_7 : call_7 40 40 warm ≡ (ok 70, warm)
unfolding cached build_cache_key format build_key join_parts namespace_value
hit_7 = refl

abbrev update_text : Bool → Outcome ℕ × World ℕ (Memory ℕ)
update_text available =
    cache_invalidate memory never_none available ("user:{user_id}" ∷ []) (untyped "users") "1"
      read_7 counting 30 warm

abbrev read_text : Bool → Outcome ℕ × World ℕ (Memory ℕ)
read_text available =
    cached memory never_none available by_id 300 (untyped "users") "1" read_7 counting 30 30 warm

untyped_fails_example :
    ((e : Exn) × (read_text true ≡ (raised e, warm)))
    × ((e : Exn) × (update_text true ≡ (raised e, record warm { app = 5 })))
    × (read_text false ≡ (ok 5, record warm { app = 5 }))
    × (update_text false ≡ (ok 5, record warm { app = 5 }))
untyped_fails_example =
    untyped_fails memory never_none "users" "1" by_id "user:{user_id}" [] 300 30 30 read_7 counting
      warm
