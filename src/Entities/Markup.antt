-- ===== src/Entities/Markup.antt =====
-- The cleaning of texts by `sanitize_string` of apps/tcc/usecase/entities/base_entity.py.
use Prim.Native.Char.{Char, code}
use Prim.Native.String.{◌++◌}
use taunggyi_city_church.Common.{
  ℕ, ◌≡◌, refl, ap, ◌∙◌, Bool, true, false, not, ◌&&◌, ◌||◌, some, String, arith, ◌==◌, all,
  Bool-cases, inl, inr,
}
use text.Mathlib.TextLemmas.{nil-append, cons-append}
use taunggyi_city_church.Common.Chars.{codes, strip}
use taunggyi_city_church.Entities.{escape_char, escape, sanitize_string}

-- `<`, `>` and the two quotation marks
abbrev pub is_markup : ℕ → Bool
is_markup k = k == 60 || (k == 62 || (k == 34 || k == 39))

abbrev pub is_free : String → Bool
is_free s = all (λ k. not (is_markup k)) (codes s)

-- none of the characters that are escaped
abbrev pub is_plain : String → Bool
is_plain s = all (λ k. not (k == 38 || is_markup k)) (codes s)

free-append : (s t : String) → is_free (s ++ t) ≡ (is_free s && is_free t)
free-append String.[] t = rw (nil-append t) refl
free-append (String.◌∷◌ c s) t = rw (cons-append c s t) (ground (arith, free-append s t))

escape_char_free : (c : Char) → is_free (escape_char c) ≡ true
unfolding escape_char
escape_char_free c = elim (Bool-cases (code c == 38)) [
  | inl e ↦ rw e refl
  | inr n0 ↦ elim (Bool-cases (code c == 60)) [
    | inl e ↦ rw (n0, e) refl
    | inr n1 ↦ elim (Bool-cases (code c == 62)) [
      | inl e ↦ rw (n0, n1, e) refl
      | inr n2 ↦ elim (Bool-cases (code c == 34)) [
        | inl e ↦ rw (n0, n1, n2, e) refl
        | inr n3 ↦ elim (Bool-cases (code c == 39)) [
          | inl e ↦ rw (n0, n1, n2, n3, e) refl
          | inr n4 ↦ rw (n0, n1, n2, n3, n4) (ground (arith, n1, n2, n3, n4))
        ]
      ]
    ]
  ]
]

escape_free : (s : String) → is_free (escape s) ≡ true
unfolding escape
escape_free String.[] = refl
escape_free (String.◌∷◌ c s) =
    free-append (escape_char c) (escape s) ∙ (rw (escape_char_free c, escape_free s) refl)

escape_char_plain :
    (c : Char)
    → not (code c == 38 || is_markup (code c)) ≡ true
    → escape_char c ≡ String.◌∷◌ c String.[]
unfolding escape_char
escape_char_plain c h =
    let n0 : (code c == 38) ≡ false = ground (arith, h) in
    let n1 : (code c == 60) ≡ false = ground (arith, h) in
    let n2 : (code c == 62) ≡ false = ground (arith, h) in
    let n3 : (code c == 34) ≡ false = ground (arith, h) in
    let n4 : (code c == 39) ≡ false = ground (arith, h) in rw (n0, n1, n2, n3, n4) refl

escape_plain : (s : String) → is_plain s ≡ true → escape s ≡ s
unfolding escape
escape_plain String.[] h = refl
escape_plain (String.◌∷◌ c s) h = rw (escape_char_plain c (ground (arith, h))) (
    cons-append c String.[] (escape s)
    ∙ ap (λ t. String.◌∷◌ c t) (nil-append (escape s) ∙ escape_plain s (ground (arith, h))))

-- What sanitize_string makes of a text has none of the characters `<`, `>` and the quotation marks,
-- and is the text with its spaces at both ends taken off where that has none of these and no `&`.
pub sanitize_string_lem :
    (value : String)
    → (s : String) × (sanitize_string (some value) ≡ some s)
      × (is_free s ≡ true)
      × (is_plain (strip value) ≡ true → s ≡ strip value)
unfolding sanitize_string
sanitize_string_lem value =
    (escape (strip value), refl, escape_free (strip value), escape_plain (strip value))
