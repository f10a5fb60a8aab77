-- ===== src/RateLimiter/Windows.antt =====
-- Runs of the checks of apps/core/jwt/rate_limiter.py, and how many they let pass in a window.
use taunggyi_city_church.Common.{
  ℕ, ◌+◌, ◌*◌, ◌≤◌, ◌<◌, ◌≡◌, refl, ◌∙◌, Bool, true, false, ◌&&◌, Option, List, [], ◌∷◌, String,
  arith, str_eq, ltb, leb, count, if◌then◌else◌, Bool-cases, inl, inr, ap, str_eq_refl, eq_iff,
  subst,
}
use taunggyi_city_church.Common.Exec.{Outcome, ok, raised}
use taunggyi_city_church.Cache.Breaker.{ticks}
use taunggyi_city_church.Cache.Api.{CacheApi, IsCache, stored}
use taunggyi_city_church.RateLimiter.{
  RateLimitConfig, RateLimitResult, WindowData, Limiter, get_key, requests_of, check_rate_limit,
}
use taunggyi_city_church.RateLimiter.Reads.{Checked, added, current_of, check_rate_limit_lem}
use taunggyi_city_church.RateLimiter.Cover.{
  is_recent, is_counted, in_window, IsBefore, IsBefore-later, count_recent_later, count_recent_over,
  count-in_window, count-added, current_lem,
}

-- a call of `check_rate_limit` and its time
pub record Check : Type 0 where
  pub now : ℕ
  pub identifier : String
  pub action : String

-- The clock does not go back.
abbrev pub InOrder : ℕ → List Check → Type 0
InOrder start [] = Unit
InOrder start (c ∷ cs) = (start ≤ c.now) × InOrder (c.now) cs

abbrev pub is_allowed : Outcome RateLimitResult → Bool
is_allowed (ok result) = result.allowed
is_allowed (raised _) = false

abbrev pub note : Bool → ℕ → List ℕ → List ℕ
note b now ts = if b then now ∷ ts else ts

unread :
    {A : Type 0} (same allowed : Bool) (a b : A)
    → (same && allowed) ≡ false
    → (if allowed then (if same then a else b) else b) ≡ b
unread same allowed a b h = ground (arith, h)

module _ (cache : CacheApi WindowData) (config : RateLimitConfig) (key : String) where
  -- The times of the checks of the key that were allowed, the newest first.
  unfoldable pub allowed_times : List Check → Limiter cache → List ℕ → List ℕ
  allowed_times [] s ts = ts
  allowed_times (c ∷ cs) s ts =
      let (r, s') = check_rate_limit cache c.now c.identifier c.action config s in
      let same = str_eq (get_key s.prefix c.identifier c.action) key in
      allowed_times cs s' (note (same && is_allowed r) c.now ts)

  -- The requests in the cache cover those that were allowed lately.
  module _ (view : ℕ → CacheApi.State cache → String → Option WindowData) where
    pub record Covers (now : ℕ) (ts : List ℕ) (s : Limiter cache) : Type 0 where
      pub before : IsBefore now ts
      pub limited : (t : ℕ) → count (in_window config.window_seconds t) ts ≤ config.max_requests
      pub covered :
          (t u : ℕ)
          → now ≤ t
          → t ≤ u
          → count (is_recent config.window_seconds u) ts
            ≤ count (is_counted config.window_seconds u) (requests_of (view t s.cache key))

    Covers-later :
        (now later : ℕ) (ts : List ℕ) (s s' : Limiter cache)
        → now ≤ later
        → ((t : ℕ) → later ≤ t → view t s'.cache key ≡ view t s.cache key)
        → Covers now ts s
        → Covers later ts s'
    Covers-later now later ts s s' le same h = record {
      before = IsBefore-later now later ts le h.before;
      limited = h.limited;
      covered = λ t u from to. rw (same t from) (h.covered t u (omega arith) to);
    }

    -- the window of an older time does not see the new request
    limited_step :
        (now t : ℕ) (ts : List ℕ) (s : Limiter cache)
        → Covers now ts s
        → current_of config now (view now s.cache key) < config.max_requests
        → count (in_window config.window_seconds t) (now ∷ ts) ≤ config.max_requests
    limited_step now t ts s h room =
        let w = config.window_seconds in
        let c = h.covered now now (omega arith) (omega arith) in
        let r = current_lem config now (view now s.cache key) in
        elim (Bool-cases (leb now t)) [
          | inl on ↦ ground (
            arith,
            on,
            c,
            r,
            room,
            count-in_window w t ts,
            count_recent_later w now t ts (ground arith),
          )
          | inr off ↦ ground (arith, off, h.limited t)
        ]

    covered_step :
        (now t u : ℕ) (ts : List ℕ) (s s' : Limiter cache)
        → Covers now ts s
        → now ≤ t
        → t ≤ u
        → view t s'.cache key
          ≡ stored now config.window_seconds
              (added now config.window_seconds (view now s.cache key))
              t
        → count (is_recent config.window_seconds u) (now ∷ ts)
          ≤ count (is_counted config.window_seconds u) (requests_of (view t s'.cache key))
    covered_step now t u ts s s' h from to read =
        let w = config.window_seconds in
        rw read (elim (Bool-cases (ltb t (now + w * ticks))) [
          | inl kept ↦ rw kept (
              ground (
                arith,
                kept,
                h.covered now u (omega arith) (omega arith),
                count-added w now u (view now s.cache key) (omega arith),
              ))
          | inr gone ↦
              ground (arith, gone, count_recent_over w now u ts h.before (ground (arith, gone)))
        ])

    module _ (Up : CacheApi.State cache → Type 0) (is_cache : IsCache cache Up view) where
      allowed_step :
          (now : ℕ) (ts : List ℕ) (s s' : Limiter cache) (result : RateLimitResult)
          → result.allowed ≡ true
          → Checked cache Up view is_cache config now key s s' result
          → Covers now ts s
          → Covers now (now ∷ ts) s'
      allowed_step now ts s s' result pass d h =
          let w = config.window_seconds in
          let room : current_of config now (view now s.cache key) < config.max_requests =
            ground (arith, d.allowed, pass) in
          record {
            before = (omega arith, h.before);
            limited = λ t. limited_step now t ts s h room;
            covered = λ t u from to. covered_step now t u ts s s' h from to (
                d.reads t key from
                ∙ ap
                    (λ b.
                      if b
                      then (if str_eq key key
                          then stored now w (added now w (view now s.cache key)) t
                          else view t s.cache key)
                      else view t s.cache key)
                    pass
                ∙ ap
                    (λ b.
                      if b
                      then stored now w (added now w (view now s.cache key)) t
                      else view t s.cache key)
                    (str_eq_refl key));
          }

      -- a check that does not count for the key does not change what it stores
      other_step :
          (now : ℕ) (ts : List ℕ) (other : String) (s s' : Limiter cache) (result : RateLimitResult)
          → (str_eq other key && result.allowed) ≡ false
          → Checked cache Up view is_cache config now other s s' result
          → Covers now ts s
          → Covers now ts s'
      other_step now ts other s s' result kept d h =
          Covers-later now now ts s s' (omega arith)
            (λ t from.
              d.reads t key from
              ∙ unread (str_eq other key) result.allowed
                  (stored now config.window_seconds
                    (added now config.window_seconds (view now s.cache other)) t)
                  (view t s.cache key) kept)
            h

      module _ (positive : 0 < config.window_seconds) where
        runs-Covers :
            (start : ℕ) (cs : List Check) (s : Limiter cache) (ts : List ℕ)
            → Up s.cache
            → InOrder start cs
            → Covers start ts s
            → (t : ℕ)
            → count (in_window config.window_seconds t) (allowed_times cs s ts)
              ≤ config.max_requests
        unfolding allowed_times
        runs-Covers start [] s ts up order h = h.limited
        runs-Covers start (c ∷ cs) s ts up order h =
            let other = get_key s.prefix c.identifier c.action in
            let (result, s', e, d) =
              check_rate_limit_lem cache Up view is_cache c.now c.identifier c.action config s up
                positive in
            let h1 = Covers-later start c.now ts s s order.0 (λ t from. refl) h in
            rw e (elim (Bool-cases (str_eq other key && result.allowed)) [
              | inl passed ↦ rw passed (
                  runs-Covers c.now cs s' (c.now ∷ ts) d.up order.1 (
                    allowed_step c.now ts s s' result (ground (arith, passed))
                      (subst (λ k. Checked cache Up view is_cache config c.now k s s' result)
                        ((eq_iff other key).0 (ground (arith, passed))) d)
                      h1))
              | inr kept ↦ rw kept (
                  runs-Covers c.now cs s' ts d.up order.1
                    (other_step c.now ts other s s' result kept d h1))
            ])

-- While the cache is up and the clock does not go back, the checks of one identifier and action
-- under one configuration with a positive window never let more than `max_requests` pass in any
-- half-open window of `window_seconds`, whatever other checks of that configuration run in between
-- and whatever the key held at the start. (The code also counts a request that is exactly a window
-- ago, while the cache still has it.)
pub allowed_in_window :
    (cache : CacheApi WindowData) (Up : CacheApi.State cache → Type 0)
    (view : ℕ → CacheApi.State cache → String → Option WindowData) (config : RateLimitConfig)
    (key : String) (start : ℕ) (cs : List Check) (s : Limiter cache)
    → IsCache cache Up view
    → 0 < config.window_seconds
    → Up s.cache
    → InOrder start cs
    → (t : ℕ)
    → count (in_window config.window_seconds t) (allowed_times cache config key cs s [])
      ≤ config.max_requests
allowed_in_window cache Up view config key start cs s is_cache positive up order t =
    runs-Covers cache config key view Up is_cache positive start cs s [] up order
      (record { before = tt; limited = λ u. omega arith; covered = λ u v from to. omega arith }) t
