-- ===== src/Cache/Refines.antt =====
-- `AsyncRedisCache` of apps/core/cache/async_cache.py keeps the promises of `Cache.Api`, over a
-- Redis that keeps its own.
use taunggyi_city_church.Common.{
  ℕ, ◌+◌, ◌≤◌, ◌≡◌, refl, ◌∙◌, true, Option, none, some, String, arith, Bool-cases, inl, inr, ap,
}
use taunggyi_city_church.Common.Exec.{Exec, ok, ◌>>=◌}
use taunggyi_city_church.Cache.Breaker.{closed, on_success, can_execute-closed, on_success-closed}
use taunggyi_city_church.Cache.Api.{CacheApi}
use taunggyi_city_church.Cache.Redis.{RedisApi, RedisLaws, Json}
use taunggyi_city_church.Cache.Async.{
  Cache, Metrics, safe_deserialize, on_client, close_connection, connect, ensure_connected, attempt,
  execute,
}
use taunggyi_city_church.Cache.Operations.{
  get, set, delete, found, count_operation, count_hit, count_miss,
}

-- The operations as the token services call them, with the time to live given.
abbrev pub as_api : (redis : RedisApi) {V : Type 0} → Json V → CacheApi V
as_api redis json = record {
  State = Cache redis;
  get = get redis json;
  set = λ now key value seconds. set redis json now key value (some seconds);
  delete = delete redis;
}

-- A value comes back from its text.
pub record JsonLaws {V : Type 0} (json : Json V) : Type 0 where
  pub text_of : V → String
  pub dumps_lem : (v : V) → json.dumps v ≡ some (text_of v)
  pub loads-dumps : (v : V) → json.loads (text_of v) ≡ some v

module _ (redis : RedisApi) (laws : RedisLaws redis) where
  open laws use {Up}

  -- The breaker is closed, the server is up, and a connected cache has its client.
  pub record IsUp (s : Cache redis) : Type 0 where
    pub breaker : s.circuit_breaker.state ≡ closed
    pub up : Up s.server
    pub client : s.is_connected ≡ true → s.has_client ≡ true

  -- what a connected state has to do with the state before
  pub record Connects (now : ℕ) (s s1 : Cache redis) : Type 0 where
    pub client : s1.has_client ≡ true
    pub breaker : s1.circuit_breaker ≡ s.circuit_breaker
    pub ttl : s1.default_ttl ≡ s.default_ttl
    pub up : Up s1.server
    pub keeps : (t : ℕ) (j : String) → now ≤ t → laws.view t s1.server j ≡ laws.view t s.server j

  pub ensure_connected_up :
      (now : ℕ) (s : Cache redis)
      → IsUp s
      → (s1 : Cache redis) × (ensure_connected redis now s ≡ (ok true, s1)) × Connects now s s1
  unfolding ensure_connected connect
  ensure_connected_up now s h =
      let (up, answer) = laws.ping_up now s.server h.up in
      elim (Bool-cases s.is_connected) [
        | inl on ↦ (
          record s { server = (redis.ping now s.server).1 },
          ground (arith, on, h.client on, answer),
          record {
            client = h.client on;
            breaker = refl;
            ttl = refl;
            up = up;
            keeps = λ t j le. laws.ping_keeps now t j s.server h.up le;
          },
        )
        | inr off ↦ (
          record (close_connection redis s) {
            has_pool = true;
            has_client = true;
            is_connected = true;
            server = (redis.ping now s.server).1;
          },
          ground (arith, off, answer),
          record {
            client = refl;
            breaker = refl;
            ttl = refl;
            up = up;
            keeps = λ t j le. laws.ping_keeps now t j s.server h.up le;
          },
        )
      ]

  -- the state after a call that went through
  abbrev pub finished : Cache redis → Cache redis
  finished s = record s {
    circuit_breaker = on_success s.circuit_breaker;
    metrics = record (s.metrics) { successful_operations = s.metrics.successful_operations + 1 };
  }

  pub execute_up :
      {A : Type 0} (now : ℕ) (s s1 s2 : Cache redis) (operation : Exec (Cache redis) A) (a : A)
      → IsUp s
      → ensure_connected redis now s ≡ (ok true, s1)
      → operation s1 ≡ (ok a, s2)
      → execute redis now operation s ≡ (ok a, finished s2)
  unfolding execute attempt
  execute_up now s s1 s2 operation a h up done =
      rw (can_execute-closed now s.circuit_breaker h.breaker, up, done)

  -- What a call leaves behind that went through: the cache is up, and reads later as `view` says.
  pub record Leaves (now : ℕ) (view : ℕ → String → Option String) (s : Cache redis) : Type 0 where
    pub is_up : IsUp s
    pub reads : (t : ℕ) (j : String) → now ≤ t → laws.view t s.server j ≡ view t j

  pub finished-IsUp :
      (s : Cache redis)
      → s.circuit_breaker.state ≡ closed
      → Up s.server
      → s.has_client ≡ true
      → IsUp (finished s)
  finished-IsUp s h up client = record {
    breaker = rw (on_success-closed s.circuit_breaker h) h;
    up = up;
    client = λ _. client;
  }

  -- `on_client` with a client
  pub on_client_lem :
      {A : Type 0} (m : Exec (RedisApi.Server redis) A) (s : Cache redis)
      → s.has_client ≡ true
      → on_client redis m s ≡ ((m s.server).0, record s { server = (m s.server).1 })
  unfolding on_client
  on_client_lem m s h = rw h

-- What a stored text reads back as.
abbrev pub decoded : {V : Type 0} → Json V → Option String → Option V
decoded json none = none
decoded json (some text) = safe_deserialize json text

abbrev tally : Option String → Metrics → Metrics
tally none m = count_miss m
tally (some _) m = count_hit m

module _ (redis : RedisApi) (laws : RedisLaws redis) {V : Type 0} (json : Json V) where
  found_lem :
      (value : Option String) (s : Cache redis)
      → found redis json value s
        ≡ (ok (decoded json value), record s { metrics = tally value s.metrics })
  found_lem none s = refl
  found_lem (some text) s = refl

  abbrev view_of : Cache redis → ℕ → String → Option String
  view_of s t j = laws.view t s.server j

  pub get_lem :
      (now : ℕ) (key : String) (s : Cache redis)
      → IsUp redis laws s
      → (s' : Cache redis) × (get redis json now key s
          ≡ (ok (decoded json (laws.view now s.server key)), s'))
        × Leaves redis laws now (view_of s) s'
  unfolding get
  get_lem now key s h =
      let s0 : Cache redis = record s { metrics = count_operation s.metrics } in
      let h0 : IsUp redis laws s0 = record { breaker = h.breaker; up = h.up; client = h.client } in
      let (s1, connects, c) = ensure_connected_up redis laws now s0 h0 in
      let (up, answer) = laws.get_up now key s1.server c.up in
      let value = laws.view now s1.server key in
      let s2 : Cache redis = record s1 { server = (redis.get now key s1.server).1 } in
      let s3 : Cache redis = record s2 { metrics = tally value s2.metrics } in
      let same : value ≡ laws.view now s.server key = c.keeps now key (omega arith) in
      let run : (on_client redis (redis.get now key) >>= found redis json) s1
          ≡ (ok (decoded json value), s3) =
        rw (on_client_lem redis laws (redis.get now key) s1 c.client, answer)
          (found_lem value s2) in
      (
        finished redis laws s3,
        execute_up redis laws now s0 s1 s3
              (on_client redis (redis.get now key) >>= found redis json) (decoded json value) h0
              connects run
            ∙ ap (λ (o : Option String). (ok (decoded json o), finished redis laws s3)) same,
        record {
          is_up = finished-IsUp redis laws s3 (ap (λ b. b.state) c.breaker ∙ h.breaker) up c.client;
          reads = λ t j le. laws.get_keeps now t key j s1.server c.up le ∙ c.keeps t j le;
        },
      )
