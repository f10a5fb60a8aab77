-- ===== src/Cache/Memory.antt =====
-- A Redis and a cache in memory, for the tests of the modules that take one: the state says what is
-- read at each time, if nothing is called until then.
use taunggyi_city_church.Common.{
  ℕ, refl, true, false, Option, none, some, List, [], ◌∷◌, String, str_eq, if◌then◌else◌, map,
  is_some,
}
use taunggyi_city_church.Common.Int.{negsuc}
use taunggyi_city_church.Common.Exec.{ok}
use taunggyi_city_church.Cache.Api.{CacheApi, IsCache, stored}
use taunggyi_city_church.Cache.Redis.{RedisApi, RedisLaws, Json}
use taunggyi_city_church.Cache.Refines.{JsonLaws}

abbrev pub Memory : Type 0 → Type 0
Memory V = ℕ → String → Option V

module _ {V : Type 0} where
  abbrev pub empty : Memory V
  empty t k = none

  abbrev pub put_memory : ℕ → String → V → ℕ → Memory V → Memory V
  put_memory now k v ttl s t j = if str_eq k j then stored now ttl v t else s t j

  abbrev pub forget : String → Memory V → Memory V
  forget k s t j = if str_eq k j then none else s t j

  abbrev forget_all : List String → Memory V → Memory V
  forget_all [] s = s
  forget_all (k ∷ ks) s = forget_all ks (forget k s)

  abbrev pub memory : CacheApi V
  memory = record {
    State = Memory V;
    get = λ now k s. (ok (s now k), s);
    set = λ now k v ttl s. (ok true, put_memory now k v ttl s);
    delete = λ now k s. (ok (is_some (s now k)), forget k s);
  }

  abbrev pub memory-IsCache : IsCache memory (λ s. Unit) (λ t s k. s t k)
  memory-IsCache = record {
    get_up = λ now k s up. tt;
    get_reads = λ now k s up. refl;
    get_keeps = λ now t k j s up le. refl;
    set_up = λ now ttl k v s up positive. (tt, refl);
    set_writes = λ now ttl t k j v s up positive le. refl;
    delete_up = λ now k s up. (tt, (is_some (s now k), refl));
    delete_removes = λ now t k j s up le. refl;
  }

-- Keys, the ends of times to live and counters are not asked for.
abbrev pub memory_redis : RedisApi
memory_redis = record {
  Server = Memory String;
  ping = λ now s. (ok tt, s);
  get = λ now k s. (ok (s now k), s);
  setex = λ now k ttl text s. (ok true, put_memory now k text ttl s);
  set = λ now k text s. (ok true, λ t j. if str_eq k j then some text else s t j);
  delete = λ now ks s. (ok 1, forget_all ks s);
  mget = λ now ks s. (ok (map (λ k. s now k) ks), s);
  keys = λ now pattern_text s. (ok [], s);
  exists = λ now k s. (ok (if is_some (s now k) then 1 else 0), s);
  ttl = λ now k s. (ok (if is_some (s now k) then negsuc 0 else negsuc 1), s);
  expire = λ now k ttl s. (ok false, s);
  incr = λ now k s. (ok 1, s);
}

abbrev pub memory_laws : RedisLaws memory_redis
memory_laws = record {
  Up = λ s. Unit;
  view = λ t s k. s t k;
  ping_up = λ now s up. (tt, refl);
  ping_keeps = λ now t j s up le. refl;
  get_up = λ now k s up. (tt, refl);
  get_keeps = λ now t k j s up le. refl;
  setex_up = λ now ttl k text s up positive. (tt, refl);
  setex_writes = λ now ttl t k j text s up positive le. refl;
  delete_up = λ now k s up. (tt, (1, refl));
  delete_removes = λ now t k j s up le. refl;
}

-- texts stored as they are
abbrev pub plain : Json String
plain = record { dumps = some; str = λ v. v; loads = some }

abbrev pub plain-JsonLaws : JsonLaws plain
plain-JsonLaws = record { text_of = λ v. v; dumps_lem = λ v. refl; loads-dumps = λ v. refl }
