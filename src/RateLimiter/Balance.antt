-- ===== src/RateLimiter/Balance.antt =====
-- What a check of apps/core/jwt/rate_limiter.py answers and counts, whatever the cache answers.
use taunggyi_city_church.Common.{
  ℕ, ◌+◌, ◌-◌, ◌*◌, ◌≡◌, refl, Bool, true, false, Option, [], ◌∷◌, ◌++◌, String, leb, ltb, length,
  length-filter, count, is_some, if◌then◌else◌, Bool-cases, inl, inr,
}
use taunggyi_city_church.Common.Exec.{Outcome-cases, Outcome, ok, raised}
use taunggyi_city_church.Cache.Breaker.{ticks}
use taunggyi_city_church.Cache.Api.{CacheApi}
use taunggyi_city_church.RateLimiter.{
  RateLimitConfig, RateLimitResult, WindowData, Limiter, LimiterMetrics, get_key, valid_requests,
  requests_of, get_current_requests, add_request, sliding_window_check, check_rate_limit,
}
use taunggyi_city_church.RateLimiter.Reads.{checked_lem}

pub data Verdict : Type 0 where
  failed admitted refused : Verdict

abbrev pub lets_pass : Verdict → Bool
lets_pass refused = false
lets_pass _ = true

abbrev pub has_details : Verdict → Bool
has_details failed = false
has_details _ = true

abbrev pub count_verdict : Verdict → LimiterMetrics → LimiterMetrics
count_verdict failed m = record m { errors = m.errors + 1 }
count_verdict admitted m = record m { allowed = m.allowed + 1 }
count_verdict refused m = record m { denied = m.denied + 1 }

module _ (cache : CacheApi WindowData) (config : RateLimitConfig) (now : ℕ) (key : String) where
  -- how many of the requests that were read are no older than the window
  abbrev pub recent : Option WindowData → ℕ
  recent o = count (λ ts. leb (now - config.window_seconds * ticks) ts) (requests_of o)

  -- what is written: the requests that were read and this one, without those that are older
  abbrev pub written : Option WindowData → WindowData
  written o = record {
    requests = valid_requests (now - config.window_seconds * ticks) (requests_of o ++ now ∷ []);
  }

  recent_lem :
      (o : Option WindowData)
      → length (valid_requests (now - config.window_seconds * ticks) (requests_of o)) ≡ recent o
  unfolding valid_requests
  recent_lem o = length-filter (λ ts. leb (now - config.window_seconds * ticks) ts) (requests_of o)

  abbrev pub after_set : Outcome Bool → Verdict
  after_set (ok b) = admitted
  after_set (raised e) = failed

  abbrev pub after_reread : Outcome (Option WindowData) → CacheApi.State cache → Verdict
  after_reread (raised e) c = failed
  after_reread (ok o) c = after_set (cache.set now key (written o) config.window_seconds c).0

  abbrev pub after_read : Outcome (Option WindowData) → CacheApi.State cache → Verdict
  after_read (raised e) c = failed
  after_read (ok o) c =
      if ltb (recent o) config.max_requests
      then after_reread (cache.get now key c).0 (cache.get now key c).1
      else refused

  -- The verdict that the answers of the cache lead to: it has to be read, and, if there is room,
  -- read again and written.
  abbrev pub verdict : CacheApi.State cache → Verdict
  verdict c = after_read (cache.get now key c).0 (cache.get now key c).1

module _ (cache : CacheApi WindowData) where
  -- what a check that comes to a verdict does
  abbrev pub Does : Verdict → LimiterMetrics → Outcome RateLimitResult × Limiter cache → Type 0
  Does v m done =
      (result : RateLimitResult) × (s' : Limiter cache) × (done ≡ (ok result, s'))
      × (result.allowed ≡ lets_pass v)
      × (is_some result.details ≡ has_details v)
      × (s'.metrics ≡ count_verdict v m)

  -- Whatever the cache answers or raises, a check returns, and counts as a check and as exactly one
  -- of allowed, denied or error. It is an error, allowed and without details, if a call of the cache
  -- raises: the first read, or, if that leaves room in the window, the second read or the write.
  -- Otherwise the request is allowed exactly if the first read leaves room, and has details.
  pub check_always_counts :
      (now : ℕ) (identifier action : String) (config : RateLimitConfig) (s : Limiter cache)
      → Does
          (verdict cache config now (get_key s.prefix identifier action) s.cache)
          (record (s.metrics) { checks = s.metrics.checks + 1 })
          (check_rate_limit cache now identifier action config s)
  unfolding check_rate_limit sliding_window_check get_current_requests add_request
  check_always_counts now identifier action config s =
      let key = get_key s.prefix identifier action in
      let s0 : Limiter cache = record s {
        metrics = record (s.metrics) { checks = s.metrics.checks + 1 };
      } in
      let c1 = (cache.get now key s.cache).1 in
      let c2 = (cache.get now key c1).1 in
      let same = checked_lem cache config.strategy now identifier action config s0 in
      elim (Outcome-cases (cache.get now key s.cache).0) [
        | inr (e, down) ↦ rw (same, down) (_, _, refl, refl, refl, refl)
        | inl (o, read) ↦
            let n : length (valid_requests (now - config.window_seconds * ticks) (requests_of o))
                ≡ recent cache config now key o =
              recent_lem cache config now key o in
            elim (Bool-cases (ltb (recent cache config now key o) config.max_requests)) [
              | inr full ↦ rw (same, read, n, full) (_, _, refl, refl, refl, refl)
              | inl room ↦ elim (Outcome-cases (cache.get now key c1).0) [
                | inr (e, down) ↦ rw (same, read, n, room, down) (_, _, refl, refl, refl, refl)
                | inl (o', reread) ↦
                    elim (Outcome-cases
                      (cache.set now key (written cache config now key o') config.window_seconds
                        c2).0) [
                          | inr (e, down) ↦
                              rw (same, read, n, room, reread, down) (_, _, refl, refl, refl, refl)
                          | inl (b, set) ↦
                              rw (same, read, n, room, reread, set) (_, _, refl, refl, refl, refl)
                        ]
              ]
            ]
      ]
