-- ===== src/Auth/Tokens/Tests.antt =====
-- A refresh token of apps/tcc/usecase/usecases/auth/jwt_uc.py over a cache in memory, with a PyJWT that
-- knows one payload.
use taunggyi_city_church.Common.{ℕ, ◌≡◌, refl, ap, false, Option, none, some, String, arith}
use taunggyi_city_church.Common.Exec.{Outcome, ok}
use taunggyi_city_church.Cache.Memory.{empty, memory, memory-IsCache}
use taunggyi_city_church.Auth.Tokens.{
  Claims, PyJwt, State, generate_refresh_token, verify_access_token, blacklist_refresh_token,
  blacklist_all_user_tokens, get_token_expiry, is_token_expired,
}
use taunggyi_city_church.Auth.Tokens.Lifetimes.{
  PyJwtLaws, refresh_claims, verified_at, refresh_lifetime,
}

abbrev payload : Claims
payload = refresh_claims 5000000 7 "a1"

abbrev one_token : PyJwt
one_token = record {
  encode = λ c secret. ok "signed";
  decode = λ now token secret. ok payload;
  decode_unverified = λ token. ok payload;
  token_hex = λ n. "a1";
}

abbrev Knows : Claims → Type 0
Knows c = payload ≡ c

abbrev one_token_laws : PyJwtLaws one_token Knows
one_token_laws = record {
  token_of = λ c secret. "signed";
  encode_lem = λ c secret known. refl;
  token_of_lem = λ c secret known. refl;
  decode-encode = λ c secret now issued exp known iat since e before. ap ok known;
  token_hex_lem = λ n. refl;
}

abbrev str_id : ℕ → String
str_id n = "7"

abbrev fresh : State one_token "secret" str_id memory
fresh = record { draws = 0; store = empty }

abbrev signed_in : Outcome (String × String) × State one_token "secret" str_id memory
signed_in = generate_refresh_token one_token "secret" str_id memory 5000000 7 fresh

abbrev answer : ℕ → State one_token "secret" str_id memory → Outcome (Option (ℕ × String))
answer t s = verified_at one_token one_token_laws "secret" str_id memory memory-IsCache t "signed" s

refresh_lifetime_example :
    (signed_in.0 ≡ ok ("signed", "a1"))
    × (answer 6000000 signed_in.1 ≡ ok (some (7, "a1")))
    × (answer 8000000
          (blacklist_refresh_token one_token "secret" str_id memory 6000000 7 "a1" signed_in.1).1
        ≡ ok none)
    × (answer 8000000
          (blacklist_all_user_tokens one_token "secret" str_id memory 6000000 7 signed_in.1).1
        ≡ ok (some (7, "a1")))
refresh_lifetime_example =
    refresh_lifetime one_token one_token_laws "secret" str_id memory memory-IsCache 5000000 6000000
      8000000 7 fresh refl tt (omega arith) (omega arith) (omega arith) (omega arith) refl

not_an_access_token :
    verify_access_token one_token "secret" str_id memory 6000000 "signed" ≡ ok none
unfolding verify_access_token
not_an_access_token = refl

expiries :
    (get_token_expiry "refresh" ≡ 604800)
    × (get_token_expiry "other" ≡ 0)
    × (is_token_expired one_token 6000000 "signed" ≡ ok false)
unfolding get_token_expiry is_token_expired
expiries = (refl, refl, refl)
