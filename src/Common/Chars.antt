-- ===== src/Common/Chars.antt =====
-- Operations of Python's str over the characters of a text.
use Prim.Native.Nat.{ℕ, ◌+◌}
use Prim.Native.Char.{code}
use Prim.Native.String.{String, ◌++◌}
use mathlib.Core.Bool.{Bool, true, false, ◌&&◌, ◌||◌}
use mathlib.Core.Option.{Option, none, some}
use mathlib.Core.List.{List, [], ◌∷◌, map}
use text.Mathlib.Text.{◌==◌ as str_eq}
use taunggyi_city_church.Common.Tests.{leb, ◌==◌, if◌then◌else◌}
use taunggyi_city_church.Common.Lists.{any}

-- `c.isspace()`, by code point
unfoldable pub is_space : ℕ → Bool
is_space c =
    (leb 9 c && leb c 13)
    || (leb 28 c && leb c 32)
    || (leb 8192 c && leb c 8202)
    || any (λ k. k == c) (133 ∷ 160 ∷ 5760 ∷ 8232 ∷ 8233 ∷ 8239 ∷ 8287 ∷ 12288 ∷ [])

unfoldable pub lstrip : String → String
unfolding is_space
lstrip String.[] = String.[]
lstrip (String.◌∷◌ c s) = let rest = lstrip s in if is_space (code c) then rest else String.◌∷◌ c s

unfoldable pub rstrip : String → String
unfolding is_space
rstrip String.[] = String.[]
rstrip (String.◌∷◌ c s) =
    let rest = rstrip s in
    if is_space (code c) && str_eq rest "" then String.[] else String.◌∷◌ c rest

-- `s.strip()`
unfoldable pub strip : String → String
unfolding lstrip rstrip
strip s = rstrip (lstrip s)

abbrev pub codes : String → List ℕ
codes String.[] = []
codes (String.◌∷◌ c s) = code c ∷ codes s

-- `c.lower()` of an ASCII character. The lower-case forms of other characters do not contain ASCII
-- letters alone, so a test for a word of those is not changed by them.
unfoldable pub lowered : ℕ → ℕ
lowered c = if leb 65 c && leb c 90 then c + 32 else c

unfoldable pub begins : List ℕ → List ℕ → Bool
begins [] cs = true
begins (k ∷ ks) [] = false
begins (k ∷ ks) (c ∷ cs) = k == c && begins ks cs

unfoldable pub within : List ℕ → List ℕ → Bool
unfolding begins
within ks [] = begins ks []
within ks (c ∷ cs) = let later = within ks cs in if begins ks (c ∷ cs) then true else later

-- `word in s.lower()`
unfoldable pub mentions : String → String → Bool
unfolding within lowered
mentions word s = within (codes word) (map lowered (codes s))

-- `", ".join(words)`
unfoldable pub join : String → List String → String
join sep [] = ""
join sep (word ∷ []) = word
join sep (word ∷ next ∷ rest) = word ++ (sep ++ join sep (next ∷ rest))

-- the rest of `s` after a word that it starts with
unfoldable pub after_prefix : String → String → Option String
after_prefix String.[] s = some s
after_prefix (String.◌∷◌ k w) String.[] = none
after_prefix (String.◌∷◌ k w) (String.◌∷◌ c s) = if code k == code c then after_prefix w s else none

-- `s[:-len(word)] if s.endswith(word) else s`, of a word that is not empty
unfoldable pub without_suffix : String → String → String
without_suffix word String.[] = String.[]
without_suffix word (String.◌∷◌ c s) =
    let rest = without_suffix word s in
    if str_eq (String.◌∷◌ c s) word then String.[] else String.◌∷◌ c rest
