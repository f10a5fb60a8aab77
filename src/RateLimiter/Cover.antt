-- ===== src/RateLimiter/Cover.antt =====
-- Counting requests in windows of time, as apps/core/jwt/rate_limiter.py does.
use taunggyi_city_church.Common.{
  ℕ, ◌+◌, ◌-◌, ◌*◌, ◌≤◌, ◌≡◌, refl, ◌∙◌, Bool, ◌&&◌, Option, List, [], ◌∷◌, ◌++◌, arith, ltb, leb,
  length, count, count-append, if◌then◌else◌,
}
use taunggyi_city_church.Cache.Breaker.{ticks}
use taunggyi_city_church.RateLimiter.{RateLimitConfig, WindowData, valid_requests, requests_of}
use taunggyi_city_church.RateLimiter.Reads.{added, current_of}

-- A request at `ts` counts at t: it is less than a window ago.
abbrev pub is_recent : ℕ → ℕ → ℕ → Bool
is_recent window_seconds t ts = ltb t (ts + window_seconds * ticks)

-- The code's own test, which still counts a request that is a window ago.
abbrev pub is_counted : ℕ → ℕ → ℕ → Bool
is_counted window_seconds t ts = leb t (ts + window_seconds * ticks)

-- The requests of the half-open window that ends at t.
abbrev pub in_window : ℕ → ℕ → ℕ → Bool
in_window window_seconds t ts = leb ts t && is_recent window_seconds t ts

abbrev pub IsBefore : ℕ → List ℕ → Type 0
IsBefore now [] = Unit
IsBefore now (t ∷ ts) = (t ≤ now) × IsBefore now ts

pub IsBefore-later :
    (now later : ℕ) (ts : List ℕ) → now ≤ later → IsBefore now ts → IsBefore later ts
IsBefore-later now later [] le h = tt
IsBefore-later now later (t ∷ ts) le h = (omega (arith, h), IsBefore-later now later ts le h.1)

module _ (window_seconds : ℕ) where
  pub count_recent_later :
      (t u : ℕ) (ts : List ℕ)
      → t ≤ u
      → count (is_recent window_seconds u) ts ≤ count (is_recent window_seconds t) ts
  count_recent_later t u [] le = omega arith
  count_recent_later t u (x ∷ ts) le = ground (arith, count_recent_later t u ts le)

  pub count_recent_over :
      (now u : ℕ) (ts : List ℕ)
      → IsBefore now ts
      → now + window_seconds * ticks ≤ u
      → count (is_recent window_seconds u) ts ≡ 0
  count_recent_over now u [] h over = refl
  count_recent_over now u (x ∷ ts) h over = ground (arith, count_recent_over now u ts h.1 over, h.0)

  pub count-in_window :
      (t : ℕ) (ts : List ℕ)
      → count (in_window window_seconds t) ts ≤ count (is_recent window_seconds t) ts
  count-in_window t [] = omega arith
  count-in_window t (x ∷ ts) = ground (arith, count-in_window t ts)

  -- what a later test counts of the requests that were kept
  pub count_valid :
      (now u : ℕ) (ts : List ℕ)
      → now ≤ u
      → count (is_counted window_seconds u) (valid_requests (now - window_seconds * ticks) ts)
        ≡ count (is_counted window_seconds u) ts
  unfolding valid_requests
  count_valid now u [] le = refl
  count_valid now u (x ∷ ts) le = ground (arith, count_valid now u ts le)

  pub count-added :
      (now u : ℕ) (before : Option WindowData)
      → now ≤ u
      → count (is_counted window_seconds u) (added now window_seconds before).requests
        ≡ count (is_counted window_seconds u) (requests_of before)
          + (if is_counted window_seconds u now then 1 else 0)
  count-added now u before le =
      count_valid now u (requests_of before ++ now ∷ []) le
      ∙ count-append (is_counted window_seconds u) (requests_of before) (now ∷ [])
      ∙ ground arith

  length-valid :
      (now : ℕ) (ts : List ℕ)
      → length (valid_requests (now - window_seconds * ticks) ts)
        ≡ count (is_counted window_seconds now) ts
  unfolding valid_requests
  length-valid now [] = refl
  length-valid now (x ∷ ts) = ground (arith, length-valid now ts)

pub current_lem :
    (config : RateLimitConfig) (now : ℕ) (before : Option WindowData)
    → current_of config now before
      ≡ count (is_counted config.window_seconds now) (requests_of before)
current_lem config now before = length-valid config.window_seconds now (requests_of before)
