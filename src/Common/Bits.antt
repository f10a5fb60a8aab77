-- ===== src/Common/Bits.antt =====
-- `|` of disjoint fields and `&` with a mask of ones, for every width.
use Prim.Native.Nat.{
  ℕ, zero, suc, ◌+◌, ◌-◌, ◌*◌, ◌/◌, ◌%◌, ◌^◌, ◌≤◌, ◌<◌, min, max, bit_and, bit_or, digits,
  bit_and-bitwise, bit_or-bitwise,
}
use mathlib.Core.Path.{◌≡◌, refl, ap, ◌∙◌}
use native.Mathlib.Omega.{arith}
use native.Mathlib.Nat.{
  pow-suc, one-le-pow, div-add-mod', mod-lt, mod-eq_of_lt, add-mul-mod_self_right,
}

-- The native operations stand for a recursion on binary digits, whose fuel is the first operand.
module _ (rest : ℕ → ℕ) (join : ℕ → ℕ → ℕ) where
  abbrev digits_of : ℕ → ℕ → ℕ → ℕ
  digits_of n a b = digits rest join n a b

  -- Any two amounts of fuel that cover the operand give one result.
  same_digits : (fuel more a b : ℕ) → a ≤ fuel → a ≤ more → digits_of fuel a b ≡ digits_of more a b
  same_digits fuel zero (suc a) b p q = absurd (omega arith)
  same_digits zero more (suc a) b p q = absurd (omega arith)
  same_digits zero zero zero b p q = refl
  same_digits zero (suc more) zero b p q = refl
  same_digits (suc fuel) zero zero b p q = refl
  same_digits (suc fuel) (suc more) zero b p q = refl
  same_digits (suc fuel) (suc more) (suc a) b p q =
      ap (λ (t : ℕ). t * 2 + join (suc a % 2) (b % 2))
        (same_digits fuel more (suc a / 2) (b / 2) (omega arith) (omega arith))

-- The equations for the lowest digit.
or_digit : (a b : ℕ) → bit_or a b ≡ bit_or (a / 2) (b / 2) * 2 + max (a % 2) (b % 2)
or_digit zero b = simp bit_or-bitwise (omega arith)
or_digit (suc a) b = simp bit_or-bitwise (
    ap (λ (t : ℕ). t * 2 + max (suc a % 2) (b % 2))
      (same_digits (λ y. y) max a (suc a / 2) (suc a / 2) (b / 2) (omega arith) (omega arith)))

and_digit : (a b : ℕ) → bit_and a b ≡ bit_and (a / 2) (b / 2) * 2 + min (a % 2) (b % 2)
and_digit zero b = simp bit_and-bitwise (omega arith)
and_digit (suc a) b = simp bit_and-bitwise (
    ap (λ (t : ℕ). t * 2 + min (suc a % 2) (b % 2))
      (same_digits (λ y. 0) min a (suc a / 2) (suc a / 2) (b / 2) (omega arith) (omega arith)))

-- With 0 as the right operand, by recursion on a bound of the left one.
zero_laws : (bound a : ℕ) → a ≤ bound → (bit_or a 0 ≡ a) × (bit_and a 0 ≡ 0)
zero_laws bound zero h = (refl, refl)
zero_laws zero (suc a) h = absurd (omega arith)
zero_laws (suc bound) (suc a) h =
    let halves = zero_laws bound (suc a / 2) (omega arith) in
    (omega (arith, or_digit (suc a) 0, halves.0), omega (arith, and_digit (suc a) 0, halves.1))

double_pow : (q k : ℕ) → q * 2 ^ suc k ≡ 2 * (q * 2 ^ k)
double_pow q k = omega (arith, ap (λ (t : ℕ). q * t) (pow-suc 2 k))

-- `(q << k) | r` is a sum where r fits k bits.
pub bit_or-shifted : (k q r : ℕ) → r < 2 ^ k → bit_or (q * 2 ^ k) r ≡ q * 2 ^ k + r
bit_or-shifted zero q r h = ground (arith, (zero_laws q q (omega arith)).0)
bit_or-shifted (suc k) q r h = ground (
  arith,
  or_digit (q * 2 ^ suc k) r,
  double_pow q k,
  bit_or-shifted k q (r / 2) (omega (arith, pow-suc 2 k)),
)

-- A remainder by an even number, digit by digit.
mod_digit : (m a : ℕ) → 0 < m → a % (2 * m) ≡ a / 2 % m * 2 + a % 2
mod_digit m a h =
    let low : ℕ = a / 2 % m * 2 + a % 2 in
    let split : a ≡ low + a / 2 / m * (2 * m) = omega (arith, div-add-mod' (a / 2) m) in
    let small : low < 2 * m = omega (arith, mod-lt (a / 2) h) in
    ap (λ (t : ℕ). t % (2 * m)) split
    ∙ add-mul-mod_self_right low (a / 2 / m) (2 * m)
    ∙ mod-eq_of_lt small

-- `a & (2 ** k - 1)` is the remainder by 2 ** k.
pub bit_and-mask : (k a : ℕ) → bit_and a (2 ^ k - 1) ≡ a % 2 ^ k
bit_and-mask zero a = ground (arith, (zero_laws a a (omega arith)).1)
bit_and-mask (suc k) a = ground (
  arith,
  and_digit a (2 ^ suc k - 1),
  pow-suc 2 k,
  one-le-pow k 2,
  mod_digit (2 ^ k) a,
  bit_and-mask k (a / 2),
)
