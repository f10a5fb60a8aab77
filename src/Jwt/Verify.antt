-- ===== src/Jwt/Verify.antt =====
-- What `JWTBackend.verify_token` of apps/core/jwt/jwt_backend.py accepts.
use taunggyi_city_church.Common.{
  ℕ, ◌*◌, ◌≤◌, ◌≡◌, refl, sym, ◌∙◌, ap, subst, ◌↔◌, ◌⊎◌, Bool, true, false, ◌&&◌, Option, none,
  some, String, arith, eq_iff, is_some, or_else, if◌then◌else◌,
}
use taunggyi_city_church.Common.Exec.{Outcome, ok, raised}
use taunggyi_city_church.Cache.Breaker.{ticks}
use taunggyi_city_church.Jwt.{TokenType, value, Payload, TokenConfig}
use taunggyi_city_church.Jwt.Backend.{
  Jwt, first_audience, perform_security_checks, verify_signature, verify_token, same_type, is_over,
  checked_type, checked_claims,
}

-- The type that was asked for, if one was
abbrev pub HasType : Option TokenType → Option String → Type 0
HasType none t = Unit
HasType (some expected) t = t ≡ some (value expected)

-- A time of 0 passes for no time at all.
abbrev pub IsAlive : ℕ → Option ℕ → Type 0
IsAlive now none = Unit
IsAlive now (some exp) = (exp ≡ 0) ⊎ (now ≤ exp * ticks)

abbrev pub is_complete : Payload → Bool
is_complete p =
    is_some p.sub && is_some p.exp && is_some p.iat && is_some p.jti && is_some p.token_type

-- A payload that passes: decoded under the configuration, of the type that was asked for, with the
-- required claims, and not over.
pub record IsVerified (jwt : Jwt) (c : TokenConfig) (now : ℕ) (token : String)
    (token_type : Option TokenType) (p : Payload) : Type 0 where
  pub decoded :
      jwt.decode now token c.secret_key c.algorithm c.issuer (first_audience c.audience) ≡ ok p
  pub typed : HasType token_type p.token_type
  pub complete : is_complete p ≡ true
  pub alive : IsAlive now p.exp

same_type_lem :
    (token_type : Option TokenType) (t : Option String)
    → (same_type token_type t ≡ true) ↔ HasType token_type t
same_type_lem none t = (λ _. tt, λ _. refl)
same_type_lem (some x) none = ground arith
same_type_lem (some x) (some t) =
    (λ h. ap some ((eq_iff t (value x)).0 h), λ h. (eq_iff t (value x)).1 (ground (arith, h)))

is_over_lem : (now : ℕ) (exp : Option ℕ) → (is_over now exp ≡ false) ↔ IsAlive now exp
is_over_lem now none = (λ _. tt, λ _. refl)
is_over_lem now (some exp) = ground arith

security_lem :
    (now : ℕ) (p : Payload)
    → (perform_security_checks now p ≡ true) ↔ ((is_complete p ≡ true) × IsAlive now p.exp)
unfolding perform_security_checks
security_lem now p =
    let (over, alive) = is_over_lem now p.exp in
    (λ h. (ground (arith, h), over (ground (arith, h))), λ h. ground (arith, h.0, alive h.1))

-- The answer on what the library decoded.
abbrev judged : ℕ → Option TokenType → Outcome Payload → Bool × Option Payload
judged now token_type r = checked_claims now (checked_type token_type r)

abbrev Passes : ℕ → Option TokenType → Outcome Payload → Payload → Type 0
Passes now token_type r p =
    (r ≡ ok p) × (same_type token_type p.token_type ≡ true) × (perform_security_checks now p ≡ true)

picked :
    (now : ℕ) (typed secure : Bool) (q p : Payload)
    → secure ≡ perform_security_checks now q
    → checked_claims now (if typed then (true, some q) else (false, none)) ≡ (true, some p)
    → (q ≡ p) × (typed ≡ true) × (secure ≡ true)
picked now true true q p e h =
    (ap (λ (o : Bool × Option Payload). or_else o.1 q) (rw (sym e) at h), refl, refl)
picked now true false q p e h = absurd (ground (arith, e, h))
picked now false secure q p e h = absurd (ground (arith, h))

judged_lem :
    (now : ℕ) (token_type : Option TokenType) (r : Outcome Payload) (p : Payload)
    → (judged now token_type r ≡ (true, some p)) ↔ Passes now token_type r p
judged_lem now token_type (ok q) p = (
  λ h.
      let (same, typed, secure) =
        picked now (same_type token_type q.token_type) (perform_security_checks now q) q p refl h in
      (
        ap ok same,
        subst (λ x. same_type token_type (Payload.token_type x) ≡ true) same typed,
        subst (λ x. perform_security_checks now x ≡ true) same secure,
      ),
  λ h. ap (judged now token_type) h.0 ∙ rw (h.1, h.2) refl,
)
judged_lem now token_type (raised e) p = ground arith

-- A token passes with a payload exactly when PyJWT decodes it to that payload under the secret, the
-- algorithm, the issuer and the first audience of the configuration, it is of the type asked for, its
-- five required claims are there, and its time, if it is not 0, is not over.
pub verify_token_lem :
    (jwt : Jwt) (c : TokenConfig) (now : ℕ) (token : String) (token_type : Option TokenType)
    (p : Payload)
    → (verify_token jwt c now token token_type ≡ (true, some p))
      ↔ IsVerified jwt c now token token_type p
unfolding verify_token verify_signature
verify_token_lem jwt c now token token_type p =
    let r = jwt.decode now token c.secret_key c.algorithm c.issuer (first_audience c.audience) in
    let (passes, back) = judged_lem now token_type r p in
    (
      λ h.
          let (decoded, typed, secure) = passes h in
          let (complete, alive) = (security_lem now p).0 secure in
          record {
            decoded = decoded;
            typed = (same_type_lem token_type p.token_type).0 typed;
            complete = complete;
            alive = alive;
          },
      λ v. back (
        v.decoded,
        (same_type_lem token_type p.token_type).1 v.typed,
        (security_lem now p).1 (v.complete, v.alive),
      ),
    )
