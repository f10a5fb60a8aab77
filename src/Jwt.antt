-- ===== src/Jwt.antt =====
-- apps/core/jwt/jwt_backend.py: the claims and the configuration of the tokens. The texts of the log
-- and the reading of the environment are not modelled. The process runs in UTC, as the settings say.
pub mod Backend
pub mod Verify
pub mod Payloads
pub mod Issue
pub mod Refresh
pub mod Keeps
pub mod Unstored
mod Tests
use taunggyi_city_church.Common.{
  ℕ, ◌+◌, ◌*◌, ◌/◌, ◌<◌, ◌≡◌, ◌≢◌, refl, sym, ◌⊎◌, Bool, true, false, ◌&&◌, not, Option, none, some,
  List, [], ◌∷◌, String, str_eq, ltb, or_else, arith, if◌then◌else◌, Bool-cases, inl, inr, eq_iff,
}
use taunggyi_city_church.Common.Exec.{Outcome, ok, raised, value_error}
use text.Mathlib.Text.{starts_with}

pub data TokenType : Type 0 where
  access refresh reset email_verification : TokenType

abbrev pub value : TokenType → String
value access = "access"
value refresh = "refresh"
value reset = "reset"
value email_verification = "email_verification"

-- The claims of a token; any may be missing in a token that was not made here.
pub record Payload : Type 0 where
  pub token_type : Option String
  pub sub : Option String
  pub email : Option String
  pub roles : Option (List String)
  pub session_id : Option String
  pub jti : Option String
  pub iat : Option ℕ
  pub exp : Option ℕ
  pub iss : Option String
  pub aud : Option String
  pub purpose : Option String

pub record TokenConfig : Type 0 where
  pub access_token_expiry : ℕ
  pub refresh_token_expiry : ℕ
  pub reset_token_expiry : ℕ
  pub algorithm : String
  pub secret_key : String
  pub issuer : String
  pub audience : List String

-- `_validate_config`, with the text that `secrets.token_urlsafe(64)` draws
unfoldable pub validate_config : String → TokenConfig → Outcome TokenConfig
validate_config drawn c =
    if str_eq c.algorithm "HS256"
    then (if str_eq c.secret_key "" then raised value_error else ok c)
    else if starts_with "RS" c.algorithm
    then ok (record c {
      algorithm = "HS256";
      secret_key = if str_eq c.secret_key "" then drawn else c.secret_key;
    })
    else raised value_error

drawn_or_given :
    (b : Bool) (drawn given : String)
    → str_eq drawn "" ≡ false
    → b ≡ str_eq given ""
    → str_eq (if b then drawn else given) "" ≡ false
drawn_or_given true drawn given h e = h
drawn_or_given false drawn given h e = sym e

-- what a validated configuration has to do with the one that was given, and why one is refused
abbrev pub Validates : TokenConfig → Outcome TokenConfig → Type 0
Validates c (ok c') =
    (c'.algorithm ≡ "HS256")
    × (str_eq c'.secret_key "" ≡ false)
    × (record c' { algorithm = c.algorithm; secret_key = c.secret_key } ≡ c)
Validates c (raised e) =
    (e ≡ value_error)
    × (((c.algorithm ≡ "HS256") × (c.secret_key ≡ ""))
        ⊎ ((str_eq c.algorithm "HS256" ≡ false) × (starts_with "RS" c.algorithm ≡ false)))

-- If the secret that may be drawn is not empty, a configuration that passes signs with HS256 under a
-- secret that is not empty, and keeps the times, the issuer and the audience that were given. One is
-- refused, with a ValueError, only for an empty secret with HS256, or for an algorithm that is not
-- HS256 and does not start with RS.
pub validate_config_lem :
    (drawn : String) (c : TokenConfig)
    → str_eq drawn "" ≡ false
    → Validates c (validate_config drawn c)
unfolding validate_config
validate_config_lem drawn c h = elim (Bool-cases (str_eq c.algorithm "HS256")) [
  | inl hs ↦ elim (Bool-cases (str_eq c.secret_key "")) [
    | inl blank ↦
        rw (hs, blank)
          (refl, inl ((eq_iff c.algorithm "HS256").0 hs, (eq_iff c.secret_key "").0 blank))
    | inr set ↦ rw (hs, set) ((eq_iff c.algorithm "HS256").0 hs, set, refl)
  ]
  | inr other ↦ elim (Bool-cases (starts_with "RS" c.algorithm)) [
    | inl rs ↦
        rw (other, rs)
          (refl, drawn_or_given (str_eq c.secret_key "") drawn c.secret_key h refl, refl)
    | inr unknown ↦ rw (other, unknown) (refl, inr (other, unknown))
  ]
]
