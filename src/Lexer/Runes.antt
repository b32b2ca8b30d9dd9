-- ===== src/Lexer/Runes.antt =====
-- internal/lexer/lexer.go: the classification of runes at the end of the file.
use kukicha.Prelude.{ℕ, ◌+◌, ◌-◌, Bool, ◌&&◌, ◌||◌, Option, none, some, ◌==◌, leb, if◌then◌else◌}

abbrev within : ℕ → ℕ → ℕ → Bool
within lo hi c = leb lo c && leb c hi

-- `isDigit`
unfoldable pub is_digit : ℕ → Bool
is_digit c = within b'0' b'9' c

-- `hexDigit`; `none` is its second result `false`.
unfoldable pub hex_digit : ℕ → Option ℕ
hex_digit c =
    if within b'0' b'9' c
    then some (c - b'0')
    else if within b'a' b'f' c
    then some (c - b'a' + 10)
    else if within b'A' b'F' c
    then some (c - b'A' + 10)
    else none

-- `isHexDigit`
unfoldable pub is_hex_digit : ℕ → Bool
is_hex_digit c = within b'0' b'9' c || within b'a' b'f' c || within b'A' b'F' c

-- `isOctalDigit`
unfoldable pub is_octal_digit : ℕ → Bool
is_octal_digit c = within b'0' b'7' c

-- `isAlpha`
unfoldable pub is_alpha : ℕ → Bool
is_alpha c = within b'a' b'z' c || within b'A' b'Z' c || c == b'_'

-- `isAlphaNumeric`
unfoldable pub is_alpha_numeric : ℕ → Bool
unfolding is_alpha is_digit
is_alpha_numeric c = is_alpha c || is_digit c

-- The test `c == ' ' || c == '\t'` that several loops share.
unfoldable pub is_blank : ℕ → Bool
is_blank c = c == b' ' || c == b'\t'
