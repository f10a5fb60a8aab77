-- ===== src/Jwt/Tests.antt =====
-- Runs of the backend, and its theorems at concrete inputs.
use taunggyi_city_church.Common.{
  ◌≡◌, refl, sym, subst, ◌⊎◌, inl, inr, Bool, true, false, Option, none, some, [], ◌∷◌, String,
  arith, str_eq, is_some, if◌then◌else◌, ◌↔◌,
}
use taunggyi_city_church.Common.Exec.{value_error, invalid_token, Outcome, ok, raised}
use taunggyi_city_church.Jwt.{
  access, refresh, Payload, TokenConfig, Validates, validate_config, validate_config_lem,
}
use taunggyi_city_church.Jwt.Backend.{
  Jwt, DjangoCache, Backend, Tokens, claims, refresh_key, truthy, verify_token, create_tokens,
  refresh_tokens, revoke_refresh_token, verify_reset_token, generate_access_token,
  generate_refresh_token, verify_signature, perform_security_checks,
}
use taunggyi_city_church.Jwt.Verify.{IsVerified, verify_token_lem}
use taunggyi_city_church.Jwt.Payloads.{JwtLaws, access_payload, refresh_payload}
use taunggyi_city_church.Jwt.Issue.{create_tokens-verify}
use taunggyi_city_church.Jwt.Refresh.{
  StoreLaws, refresh_tokens_lem, refresh_tokens-earned, revoked_refused,
}
use taunggyi_city_church.Jwt.Keeps.{create}
use taunggyi_city_church.Jwt.Unstored.{perform_all, tokens_never_stored}

abbrev config : TokenConfig
config = record {
  access_token_expiry = 900;
  refresh_token_expiry = 604800;
  reset_token_expiry = 1800;
  algorithm = "RS256";
  secret_key = "secret";
  issuer = "tcc-auth-service";
  audience = "tcc-api" ∷ [];
}

sound_config : Validates config (validate_config "drawn" config)
sound_config = validate_config_lem "drawn" config refl

abbrev hs256 : TokenConfig
hs256 = record config { algorithm = "HS256" }

-- a library that knows one token, the refresh token of user 7
abbrev payload : Payload
payload = claims hs256 refresh 604800 0 "7" "ko@example.org" "j1"

abbrev decode_one : Bool → Outcome Payload
decode_one known = if known then ok payload else raised invalid_token

abbrev one_token : Jwt
one_token = record {
  encode = λ p secret algorithm. ok "t1";
  decode = λ now token secret algorithm issuer audience. decode_one (str_eq token "t1");
  uuid4 = λ n. "u";
  token_urlsafe = λ n. "j1";
  cache_data = λ token user_id session now. token;
}

abbrev Texts : Type 0
Texts = String → Option String

-- a cache in memory where nothing ends
abbrev texts : DjangoCache
texts = record {
  Store = Texts;
  get = λ now k s. (ok (s k), s);
  set = λ now k v ttl s. (ok tt, λ j. if str_eq k j then some v else s j);
  delete = λ now k s. (ok (is_some (s k)), λ j. if str_eq k j then none else s j);
}

abbrev texts_laws : StoreLaws texts
texts_laws = record {
  view = λ t s k. s k;
  get_reads = λ now k s. refl;
  get_keeps = λ now t k j s. refl;
  delete_answers = λ now k s. (is_some (s k), refl);
  delete_removes = λ now t k j s. refl;
}

abbrev started : Texts → Backend one_token texts
started store = record { config = hs256; draws = 0; store = store }

abbrev nothing : Texts
nothing k = none

-- what awaiting the coroutine would have stored
abbrev stored : Texts
stored k = if str_eq "refresh_token:7:j1" k then some "t1" else none

payload-IsVerified : IsVerified one_token hs256 5 "t1" (some refresh) payload
payload-IsVerified = record { decoded = refl; typed = refl; complete = refl; alive = ground arith }

verify_token_lem_example :
    (verify_token one_token hs256 5 "t1" (some refresh) ≡ (true, some payload))
    ↔ IsVerified one_token hs256 5 "t1" (some refresh) payload
verify_token_lem_example = verify_token_lem one_token hs256 5 "t1" (some refresh) payload

exchanged_token :
    refresh_tokens one_token texts 5 "t1" (started stored)
    ≡ create_tokens one_token texts 5 "7" "ko@example.org" (some []) none (started stored)
exchanged_token =
    refresh_tokens_lem one_token texts texts_laws 5 "t1" "7" "j1" "ko@example.org" payload
      (started stored) payload-IsVerified refl refl refl

abbrev exchanged : Tokens
exchanged = record { access_token = "t1"; refresh_token = "t1"; expires_in = 900; session_id = "u" }

stored-exchanged : (refresh_tokens one_token texts 5 "t1" (started stored)).0 ≡ ok exchanged
unfolding refresh_tokens create_tokens generate_access_token generate_refresh_token verify_token
    verify_signature perform_security_checks
stored-exchanged = refl

refresh_tokens-earned_example :
    (p : Payload) × (user_id jti : String) × IsVerified one_token hs256 5 "t1" (some refresh) p
    × (p.sub ≡ some user_id)
    × (p.jti ≡ some jti)
    × (is_some (truthy (stored (refresh_key user_id jti))) ≡ true)
refresh_tokens-earned_example =
    refresh_tokens-earned one_token texts texts_laws 5 "t1" (started stored) exchanged
      stored-exchanged

revoked_token :
    (s' : Backend one_token texts) × (revoke_refresh_token one_token texts 3 "7" "j1"
        (started stored)
      ≡ (ok true, s'))
    × ((refresh_tokens one_token texts 5 "t1" s').0 ≡ raised value_error)
    × ((k : String) → str_eq "refresh_token:7:j1" k ≡ false → s'.store k ≡ stored k)
revoked_token =
    revoked_refused one_token texts texts_laws 3 5 "t1" "7" "j1" payload (started stored)
      payload-IsVerified refl refl

-- The token that was just made is refused.
tokens_never_stored_example :
    let s' =
      perform_all one_token texts
        ((1, create "7" "ko@example.org" none none) ∷ [])
        (started nothing) in
    ((refresh_tokens one_token texts 5 "t1" s').0 ≡ raised value_error)
    × ((verify_reset_token one_token texts 5 "t1" s').0 ≡ ok (false, none))
tokens_never_stored_example =
    tokens_never_stored one_token texts texts_laws ((1, create "7" "ko@example.org" none none) ∷ [])
      (started nothing) (record { refreshes = λ t user_id jti. refl; resets = λ t user_id. refl }) 5
      "t1"

-- a library that knows the two tokens of a login of user 7
abbrev login_access : Payload
login_access = access_payload hs256 0 "7" "ko@example.org" none "s1" "j"

abbrev login_refresh : Payload
login_refresh = refresh_payload hs256 0 "7" "ko@example.org" "s1" "j"

abbrev IsOfLogin : Payload → Type 0
IsOfLogin p = (p ≡ login_access) ⊎ (p ≡ login_refresh)

abbrev name_of : Option String → String
name_of none = "r"
name_of (some t) = if str_eq t "access" then "a" else "r"

abbrev two_tokens : Jwt
two_tokens = record {
  encode = λ p secret algorithm. ok (name_of p.token_type);
  decode = λ now token secret algorithm issuer audience.
      if str_eq token "a"
      then ok login_access
      else if str_eq token "r"
      then ok login_refresh
      else raised invalid_token;
  uuid4 = λ n. "u";
  token_urlsafe = λ n. "j";
  cache_data = λ token user_id session now. token;
}

two_tokens_decode :
    (p : Payload) → IsOfLogin p → two_tokens.decode 0 (name_of p.token_type) "" "" "" none ≡ ok p
two_tokens_decode p (inl e) =
    subst (λ x. two_tokens.decode 0 (name_of (Payload.token_type x)) "" "" "" none ≡ ok x) (sym e)
      refl
two_tokens_decode p (inr e) =
    subst (λ x. two_tokens.decode 0 (name_of (Payload.token_type x)) "" "" "" none ≡ ok x) (sym e)
      refl

abbrev two_tokens_laws : JwtLaws two_tokens IsOfLogin
two_tokens_laws = record {
  token_of = λ p secret. name_of p.token_type;
  encode_lem = λ p secret known. refl;
  decode-encode =
      λ p secret issuer audience now issued exp known i il e el iss aud. two_tokens_decode p known;
  uuid4_lem = λ n. refl;
}

abbrev at_login : Backend two_tokens texts
at_login = record { config = hs256; draws = 0; store = nothing }

create_tokens-verify_example :
    (tokens : Tokens) × (s' : Backend two_tokens texts) × (create_tokens two_tokens texts 0 "7"
        "ko@example.org" none
        (some "s1")
        at_login
      ≡ (ok tokens, s'))
    × (s'.store ≡ nothing)
    × (verify_token two_tokens hs256 60000000 tokens.access_token (some access)
        ≡ (true, some login_access))
    × (verify_token two_tokens hs256 60000000 tokens.access_token (some refresh) ≡ (false, none))
    × (verify_token two_tokens hs256 60000000 tokens.refresh_token (some refresh)
        ≡ (true, some login_refresh))
    × (verify_token two_tokens hs256 60000000 tokens.refresh_token (some access) ≡ (false, none))
    × ((login_access.sub ≡ some "7")
        × (login_access.roles ≡ some [])
        × (login_access.session_id ≡ some tokens.session_id))
    × ((login_refresh.sub ≡ some "7")
        × (login_refresh.roles ≡ none)
        × (login_refresh.session_id ≡ some tokens.session_id))
create_tokens-verify_example =
    create_tokens-verify two_tokens IsOfLogin two_tokens_laws texts "tcc-api" [] 0 60000000 "7"
      "ko@example.org" none (some "s1") at_login (inl refl) (inr refl) refl refl (omega arith)
      (omega arith) (omega arith)
