-- ===== src/Auth/Passwords/Strength.antt =====
-- Which passwords `is_password_strong` of apps/tcc/usecase/usecases/base/password_service.py accepts.
use taunggyi_city_church.Common.{Bool, not, ◌&&◌, String, any, length, ltb, ◌==◌}
use taunggyi_city_church.Common.Chars.{codes}
use taunggyi_city_church.Auth.Passwords.{Unicode, special_characters}

-- at least 8 characters, and an upper-case letter, a lower-case letter, a digit and a special character
-- among them
abbrev pub is_strong : Unicode → String → Bool
is_strong u password =
    let cs = codes password in
    not (ltb (length cs) 8)
    && (any u.is_upper cs
        && (any u.is_lower cs
            && (any u.is_digit cs && any (λ c. any (λ k. k == c) (codes special_characters)) cs)))
