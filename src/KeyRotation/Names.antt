-- ===== src/KeyRotation/Names.antt =====
-- A source of names for the tests of `KeyRotation`, each longer than the one before.
use Prim.Native.String.{String, [], ◌∷◌}
use text.Mathlib.TextLemmas.{tail-eq_of_cons-eq, nil≢cons, cons≢nil}
use taunggyi_city_church.Common.{
  ℕ, zero, suc, ◌<◌, ◌≡◌, refl, true, false, str_eq, eq_iff, Bool-cases, inl, inr, arith,
}

pub letters : ℕ → String
letters zero = "k" ∷ []
letters (suc n) = "k" ∷ letters n

equal_letters : (m n : ℕ) → m < n → letters m ≡ letters n → str_eq "a" "b" ≡ true
unfolding letters
equal_letters zero (suc zero) h e = absurd (nil≢cons (tail-eq_of_cons-eq e))
equal_letters zero (suc (suc n)) h e = absurd (nil≢cons (tail-eq_of_cons-eq e))
equal_letters (suc m) (suc n) h e = equal_letters m n (omega (arith, h)) (tail-eq_of_cons-eq e)
equal_letters zero zero h e = absurd (omega (arith, h))
equal_letters (suc m) zero h e = absurd (omega (arith, h))

pub letters_differ : (m n : ℕ) → m < n → str_eq (letters m) (letters n) ≡ false
letters_differ m n h = elim (Bool-cases (str_eq (letters m) (letters n))) [
  | inl same ↦
      absurd (ground (arith, equal_letters m n h ((eq_iff (letters m) (letters n)).0 same)))
  | inr apart ↦ apart
]

pub letters_named : (n : ℕ) → str_eq (letters n) "" ≡ false
unfolding letters
letters_named zero = refl
letters_named (suc n) = elim (Bool-cases (str_eq ("k" ∷ letters n) "")) [
  | inl same ↦ absurd (cons≢nil ((eq_iff ("k" ∷ letters n) "").0 same))
  | inr apart ↦ apart
]
