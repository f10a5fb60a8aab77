-- ===== src/Blacklist/Tests.antt =====
-- Runs of the blacklist, and its theorems at concrete inputs.
use taunggyi_city_church.Common.{
  ◌≡◌, ◌↔◌, Bool, true, false, none, some, List, [], ◌∷◌, String, arith,
}
use taunggyi_city_church.Common.Exec.{redis_error, ok, raised}
use taunggyi_city_church.Common.Dict.{Dict, lookup}
use taunggyi_city_church.Cache.Api.{CacheApi}
use taunggyi_city_church.Cache.Memory.{empty, memory, memory-IsCache}
use taunggyi_city_church.Blacklist.{
  BlacklistRecord, BlacklistService, Service, TokenInfo, Found, nothing, the, get_key, record_of,
  blacklist_token, is_blacklisted, bulk_blacklist, remove_from_blacklist,
}
use taunggyi_city_church.Blacklist.Holds.{fails_secure, blacklisted_until}
use taunggyi_city_church.Blacklist.Bulk.{is_among, bulk_blacklists}

abbrev fresh : {S : Type 0} → S → BlacklistService S
fresh c = record {
  prefix = "blacklist";
  metrics = record { blacklist_operations = 0; blacklist_hits = 0; blacklist_misses = 0 };
  cache = c;
}

abbrev down : CacheApi BlacklistRecord
down = record {
  State = Unit;
  get = λ now k s. (raised redis_error, s);
  set = λ now k v ttl s. (raised redis_error, s);
  delete = λ now k s. (raised redis_error, s);
}

fails_secure_example :
    (b : Bool) × (found : Found) × ((is_blacklisted down 5 "j1" (fresh tt)).0 ≡ ok (b, found))
    × ((b ≡ false) ↔ ((down.get 5 (get_key "blacklist" "j1") tt).0 ≡ ok none))
fails_secure_example = fails_secure down 5 "j1" (fresh tt)

blacklisted_until_example :
    (s1 s2 : Service memory) × (b : Bool) × (blacklist_token memory 5 "j1" 60 "logout" (fresh empty)
      ≡ (ok true, s1))
    × ((is_blacklisted memory 1000 "j1" s1).0 ≡ ok (true, the (record_of 5 "j1" 60 "logout")))
    × (remove_from_blacklist memory 5 "j1" s1 ≡ (ok b, s2))
    × ((is_blacklisted memory 1000 "j1" s2).0 ≡ ok (false, nothing))
blacklisted_until_example =
    blacklisted_until memory (λ s. Unit) (λ t s k. s t k) memory-IsCache 5 1000 "j1" 60 "logout"
      "j1" (fresh empty) tt (omega arith) (omega arith)

abbrev tokens : List TokenInfo
tokens =
    record { jti = "j1"; expires_in = none; reason = none }
    ∷ record { jti = "j2"; expires_in = some 60; reason = some "stolen" }
    ∷ []

bulk_blacklists_example :
    (results : Dict Bool) × (s' : Service memory) × (bulk_blacklist memory 5 tokens 86400
        (fresh empty)
      ≡ (ok results, s'))
    × ((jti : String)
        → is_among jti tokens ≡ true
        → (lookup jti results ≡ some true)
          × ((found : Found) × ((is_blacklisted memory 1000 jti s').0 ≡ ok (true, found))))
bulk_blacklists_example =
    bulk_blacklists memory (λ s. Unit) (λ t s k. s t k) memory-IsCache 5 1000 86400 tokens
      (fresh empty) tt (omega arith) (omega arith, omega arith, (omega arith, omega arith, tt))
