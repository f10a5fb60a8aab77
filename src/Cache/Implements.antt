-- ===== src/Cache/Implements.antt =====
-- `set` and `delete` of `AsyncRedisCache` in apps/core/cache/async_cache.py, and with `get` the
-- promises of `Cache.Api`.
use taunggyi_city_church.Common.{
  ℕ, ◌<◌, ◌≡◌, refl, ◌∙◌, Bool, true, false, Option, none, some, [], ◌∷◌, String, arith, str_eq,
  if◌then◌else◌, ap, ltb, ◌==◌,
}
use taunggyi_city_church.Common.Exec.{ok}
use taunggyi_city_church.Cache.Api.{IsCache, stored}
use taunggyi_city_church.Cache.Redis.{RedisApi, RedisLaws, Json}
use taunggyi_city_church.Cache.Async.{Cache, safe_serialize, safe_deserialize}
use taunggyi_city_church.Cache.Operations.{
  set, put, write, delete, remove, count_operation, count_set, count_delete,
}
use taunggyi_city_church.Cache.Refines.{
  as_api, JsonLaws, IsUp, Leaves, decoded, ensure_connected_up, execute_up, finished, finished-IsUp,
  on_client_lem, get_lem,
}

module _ (redis : RedisApi) (laws : RedisLaws redis) where
  delete_lem :
      (now : ℕ) (key : String) (s : Cache redis)
      → IsUp redis laws s
      → (b : Bool) × (s' : Cache redis) × (delete redis now key s ≡ (ok b, s'))
        × Leaves redis laws now (λ t j. if str_eq key j then none else laws.view t s.server j) s'
  unfolding delete remove
  delete_lem now key s h =
      let s0 : Cache redis = record s { metrics = count_operation s.metrics } in
      let h0 : IsUp redis laws s0 = record { breaker = h.breaker; up = h.up; client = h.client } in
      let (s1, connects, c) = ensure_connected_up redis laws now s0 h0 in
      let removed = laws.delete_up now key s1.server c.up in
      let (n, answer) = removed.1 in
      let s2 : Cache redis = record s1 { server = (redis.delete now (key ∷ []) s1.server).1 } in
      let s3 : Cache redis = record s2 { metrics = count_delete (ltb 0 n) s2.metrics } in
      (
        ltb 0 n,
        finished redis laws s3,
        execute_up redis laws now s0 s1 s3 (remove redis now key) (ltb 0 n) h0 connects
            (rw (on_client_lem redis laws (redis.delete now (key ∷ [])) s1 c.client, answer)),
        record {
          is_up =
              finished-IsUp redis laws s3 (ap (λ b. b.state) c.breaker ∙ h.breaker) removed.0
                c.client;
          reads = λ t j le.
              laws.delete_removes now t key j s1.server c.up le
              ∙ ap (λ (o : Option String). if str_eq key j then none else o) (c.keeps t j le);
        },
      )

  module _ {V : Type 0} (json : Json V) where
    set_lem :
        (now : ℕ) (key : String) (v : V) (ttl : ℕ) (s : Cache redis)
        → IsUp redis laws s
        → 0 < ttl
        → (s' : Cache redis) × (set redis json now key v (some ttl) s ≡ (ok true, s'))
          × Leaves redis laws now
              (λ t j.
                if str_eq key j
                then stored now ttl (safe_serialize json v) t
                else laws.view t s.server j)
              s'
    unfolding set put write
    set_lem now key v ttl s h positive =
        let text = safe_serialize json v in
        let s0 : Cache redis = record s { metrics = count_operation s.metrics } in
        let h0 : IsUp redis laws s0 = record {
          breaker = h.breaker;
          up = h.up;
          client = h.client;
        } in
        let (s1, connects, c) = ensure_connected_up redis laws now s0 h0 in
        let (up, answer) = laws.setex_up now ttl key text s1.server c.up positive in
        let s2 : Cache redis = record s1 { server = (redis.setex now key ttl text s1.server).1 } in
        let s3 : Cache redis = record s2 { metrics = count_set true s2.metrics } in
        let timed : (ttl == 0) ≡ false = ground arith in
        (
          finished redis laws s3,
          execute_up redis laws now s0 s1 s3 (put redis json now key v (some ttl)) true h0 connects
              (rw (
                timed,
                on_client_lem redis laws (redis.setex now key ttl text) s1 c.client,
                answer,
              )),
          record {
            is_up =
                finished-IsUp redis laws s3 (ap (λ b. b.state) c.breaker ∙ h.breaker) up c.client;
            reads = λ t j le.
                laws.setex_writes now ttl t key j text s1.server c.up positive le
                ∙ ap (λ (o : Option String). if str_eq key j then stored now ttl text t else o)
                    (c.keeps t j le);
          },
        )

-- the text of a value reads back as the value, for as long as it is stored
stored_decoded :
    {V : Type 0} (json : Json V) (laws : JsonLaws json) (now ttl t : ℕ) (v : V) (b : Bool)
    (o : Option String)
    → decoded json (if b then stored now ttl (safe_serialize json v) t else o)
      ≡ (if b then stored now ttl v t else decoded json o)
unfolding safe_serialize safe_deserialize
stored_decoded json laws now ttl t v b o = ground (arith, laws.dumps_lem v, laws.loads-dumps v)

if_decoded :
    {V : Type 0} (json : Json V) (b : Bool) (o : Option String)
    → decoded json (if b then none else o) ≡ (if b then none else decoded json o)
if_decoded json true o = refl
if_decoded json false o = refl

-- What a cached text means.
abbrev pub view_of :
    (redis : RedisApi)
    → RedisLaws redis
    → {V : Type 0} → Json V
    → ℕ
    → Cache redis
    → String
    → Option V
view_of redis laws json t s k = decoded json (laws.view t s.server k)

-- With a closed breaker and a server that is up and keeps the promises of Redis, `get`, `set` with a
-- positive time to live and `delete` keep the promises of `Cache.Api`: they answer, they leave the
-- cache up, a value that was set is read back until its time is over and no other key changes. The
-- values come back from their JSON text.
pub as_api-IsCache :
    (redis : RedisApi) (laws : RedisLaws redis) {V : Type 0} (json : Json V)
    → JsonLaws json
    → IsCache (as_api redis json) (IsUp redis laws) (view_of redis laws json)
as_api-IsCache redis laws json json_laws = record {
  get_up = λ now k s h. let (s', e, l) = get_lem redis laws json now k s h in rw e (l.is_up);
  get_reads = λ now k s h. let (s', e, l) = get_lem redis laws json now k s h in rw e;
  get_keeps = λ now t k j s h le.
      let (s', e, l) = get_lem redis laws json now k s h in
      rw e (ap (decoded json) (l.reads t j le));
  set_up = λ now ttl k v s h positive.
      let (s', e, l) = set_lem redis laws json now k v ttl s h positive in rw e (l.is_up, refl);
  set_writes = λ now ttl t k j v s h positive le.
      let (s', e, l) = set_lem redis laws json now k v ttl s h positive in
      rw e (
        ap (decoded json) (l.reads t j le)
        ∙ stored_decoded json json_laws now ttl t v (str_eq k j) (laws.view t s.server j));
  delete_up =
      λ now k s h. let (b, s', e, l) = delete_lem redis laws now k s h in rw e (l.is_up, (b, refl));
  delete_removes = λ now t k j s h le.
      let (b, s', e, l) = delete_lem redis laws now k s h in
      rw e (
        ap (decoded json) (l.reads t j le) ∙ if_decoded json (str_eq k j) (laws.view t s.server j));
}
