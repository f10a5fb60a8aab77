-- ===== src/Blacklist.antt =====
-- apps/core/jwt/blacklist_service.py: `BlacklistService`, over the cache. Times are microseconds; the
-- clock is read once in a call. The log is not modelled.
pub mod Holds
pub mod Bulk
mod Tests
use taunggyi_city_church.Common.{
  ℕ, ◌+◌, ◌*◌, Bool, true, false, Option, none, some, List, [], ◌∷◌, String, or_else, is_some,
  if◌then◌else◌,
}
use taunggyi_city_church.Common.Exec.{Outcome, Exec, pure, catch, ◌>>=◌, ◌>>◌, modify}
use taunggyi_city_church.Common.Text.{◌:::◌}
use taunggyi_city_church.Common.Dict.{Dict, insert}
use taunggyi_city_church.Cache.Breaker.{ticks}
use taunggyi_city_church.Cache.Api.{CacheApi}

-- `blacklist_record`, with its times not printed
pub record BlacklistRecord : Type 0 where
  pub jti : String
  pub blacklisted_at : ℕ
  pub expires_at : ℕ
  pub reason : String

pub record BlacklistMetrics : Type 0 where
  pub blacklist_operations : ℕ
  pub blacklist_hits : ℕ
  pub blacklist_misses : ℕ

pub record BlacklistService (S : Type 0) : Type 0 where
  pub prefix : String
  pub metrics : BlacklistMetrics
  pub cache : S

-- an entry of `bulk_blacklist`
pub record TokenInfo : Type 0 where
  pub jti : String
  pub expires_in : Option ℕ
  pub reason : Option String

-- The second part of the answer of `is_blacklisted`.
pub data Found : Type 0 where
  nothing unavailable : Found
  the : BlacklistRecord → Found

-- `_get_key`
unfoldable pub get_key : String → String → String
get_key prefix jti = prefix ::: "tokens" ::: jti

abbrev pub record_of : ℕ → String → ℕ → String → BlacklistRecord
record_of now jti expires_in reason = record {
  jti = jti;
  blacklisted_at = now;
  expires_at = now + expires_in * ticks;
  reason = reason;
}

module _ (cache : CacheApi BlacklistRecord) where
  abbrev pub Service : Type 0
  Service = BlacklistService (CacheApi.State cache)

  abbrev pub on_cache : {A : Type 0} → Exec (CacheApi.State cache) A → Exec Service A
  on_cache m s = let (r, c) = m s.cache in (r, record s { cache = c })

  abbrev count_metrics : (BlacklistMetrics → BlacklistMetrics) → Exec Service Unit
  count_metrics f = modify (λ s. record s { metrics = f s.metrics })

  unfoldable pub blacklist_token : ℕ → String → ℕ → String → Exec Service Bool
  blacklist_token now jti expires_in reason s =
      catch
        (do
          success ← on_cache (
              cache.set now (get_key s.prefix jti) (record_of now jti expires_in reason) expires_in)
          count_metrics (λ m.
              if success then record m { blacklist_operations = m.blacklist_operations + 1 } else m)
          pure success)
        (λ e. pure false) s

  -- the branches of `is_blacklisted` on the record
  abbrev pub answer : Option BlacklistRecord → Exec Service (Bool × Found)
  answer (some r) = do
    count_metrics (λ m. record m { blacklist_hits = m.blacklist_hits + 1 })
    pure (true, the r)
  answer none = do
    count_metrics (λ m. record m { blacklist_misses = m.blacklist_misses + 1 })
    pure (false, nothing)

  -- A failing check reads as blacklisted.
  unfoldable pub is_blacklisted : ℕ → String → Exec Service (Bool × Found)
  is_blacklisted now jti s =
      catch (on_cache (cache.get now (get_key s.prefix jti)) >>= answer)
        (λ e. pure (true, unavailable)) s

  -- the loop of `bulk_blacklist`
  unfoldable pub blacklist_each : ℕ → List TokenInfo → ℕ → Dict Bool → Exec Service (Dict Bool)
  blacklist_each now [] default_expiry results = pure results
  blacklist_each now (token ∷ tokens) default_expiry results = do
    success ←
        blacklist_token now token.jti (or_else token.expires_in default_expiry)
          (or_else token.reason "bulk_revoked")
    blacklist_each now tokens default_expiry (insert token.jti success results)

  unfoldable pub bulk_blacklist : ℕ → List TokenInfo → ℕ → Exec Service (Dict Bool)
  bulk_blacklist now tokens default_expiry = blacklist_each now tokens default_expiry []

  unfoldable pub remove_from_blacklist : ℕ → String → Exec Service Bool
  remove_from_blacklist now jti s =
      catch (on_cache (cache.delete now (get_key s.prefix jti))) (λ e. pure false) s
