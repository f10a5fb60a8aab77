-- ===== src/Common/Text.antt =====
-- Joining of texts by `:`, as the cache keys of the program do.
use Prim.Native.Char.{code}
use Prim.Native.Nat.{ℕ}
use Prim.Native.String.{String, ◌++◌}
use mathlib.Core.Path.{◌≡◌, sym, ap, ◌∙◌}
use mathlib.Core.Logic.{inl, inr}
use mathlib.Core.Bool.{false, false≢true}
use text.Mathlib.Text.{◌==◌}
use text.Mathlib.TextEquality.{eq_iff}
use text.Mathlib.TextLemmas.{append_cancel_left, cons-append}
use taunggyi_city_church.Common.Tests.{Bool-cases}

-- f"{a}:{b}"
infixr 60 ◌:::◌
abbrev pub ◌:::◌ : String → String → String
a ::: b = a ++ (":" ++ b)

-- Keys under one prefix differ where their last parts do.
pub :::-cancel_left : (a b c : String) → a ::: b ≡ a ::: c → b ≡ c
:::-cancel_left a b c h = append_cancel_left ":" b c (append_cancel_left a (":" ++ b) (":" ++ c) h)

-- the number of the first character of a text, 0 of the empty one
abbrev pub first_code : String → ℕ
first_code String.[] = 0
first_code (String.◌∷◌ c s) = code c

first_code-append : (s t : String) → (s == "") ≡ false → first_code (s ++ t) ≡ first_code s
first_code-append String.[] t h = absurd (false≢true (sym h))
first_code-append (String.◌∷◌ c s) t h = ap first_code (cons-append c s t)

-- Keys under prefixes that begin differently differ.
pub :::-apart :
    (a b x y : String)
    → (a == "") ≡ false
    → (b == "") ≡ false
    → (first_code a ≡ first_code b → ⊥)
    → ((a ::: x) == (b ::: y)) ≡ false
:::-apart a b x y ha hb differ = elim (Bool-cases ((a ::: x) == (b ::: y))) [
  | inr apart ↦ apart
  | inl same ↦ absurd (
      differ (
        sym (first_code-append a (":" ++ x) ha)
        ∙ ap first_code ((eq_iff (a ::: x) (b ::: y)).0 same)
        ∙ first_code-append b (":" ++ y) hb))
]
