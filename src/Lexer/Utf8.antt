-- ===== src/Lexer/Utf8.antt =====
-- What the lexer uses of Go's strings: `strings.Builder.WriteRune`, which appends the UTF-8 form of
-- a rune, and `len([]rune(s))`, which counts the runes that Go decodes in a string.
pub mod Count
use kukicha.Prelude.{
  ℕ, zero, suc, ◌+◌, ◌-◌, ◌/◌, ◌%◌, Bool, ◌&&◌, ◌||◌, List, [], ◌∷◌, ◌++◌, Bytes, ltb, leb, ◌==◌,
  if◌then◌else◌,
}

-- `utf8.AppendRune`: a surrogate or a number past U+10FFFF is written as U+FFFD.
unfoldable pub encode_rune : ℕ → Bytes
encode_rune r =
    if ltb r 0x80
    then r ∷ []
    else if ltb r 0x800
    then (0xC0 + r / 64) ∷ (0x80 + r % 64) ∷ []
    else if (leb 0xD800 r && leb r 0xDFFF) || ltb 0x10FFFF r
    then 0xEF ∷ 0xBF ∷ 0xBD ∷ []
    else if ltb r 0x10000
    then (0xE0 + r / 4096) ∷ (0x80 + r / 64 % 64) ∷ (0x80 + r % 64) ∷ []
    else (0xF0 + r / 262144) ∷ (0x80 + r / 4096 % 64) ∷ (0x80 + r / 64 % 64) ∷ (0x80 + r % 64) ∷ []

-- `string(runes)`
unfoldable pub encode : List ℕ → Bytes
unfolding encode_rune
encode [] = []
encode (r ∷ rs) = encode_rune r ++ encode rs

abbrev is_tail : ℕ → Bool
is_tail b = leb 0x80 b && leb b 0xBF

-- The first byte of a rune of two, three or four bytes, with what its second byte may be.
abbrev starts_two : ℕ → ℕ → Bool
starts_two b c = leb 0xC2 b && leb b 0xDF && is_tail c

abbrev starts_three : ℕ → ℕ → Bool
starts_three b c =
    leb 0xE0 b
    && leb b 0xEF
    && leb (if b == 0xE0 then 0xA0 else 0x80) c
    && leb c (if b == 0xED then 0x9F else 0xBF)

abbrev starts_four : ℕ → ℕ → Bool
starts_four b c =
    leb 0xF0 b
    && leb b 0xF4
    && leb (if b == 0xF0 then 0x90 else 0x80) c
    && leb c (if b == 0xF4 then 0x8F else 0xBF)

-- How many bytes behind `b` belong to its rune: `utf8.DecodeRune` takes an invalid byte alone.
tail_size : ℕ → Bytes → ℕ
tail_size b [] = 0
tail_size b (c ∷ []) = if starts_two b c then 1 else 0
tail_size b (c ∷ d ∷ []) =
    if starts_two b c then 1 else if starts_three b c && is_tail d then 2 else 0
tail_size b (c ∷ d ∷ e ∷ _) =
    if starts_two b c
    then 1
    else if starts_three b c && is_tail d
    then 2
    else if starts_four b c && is_tail d && is_tail e
    then 3
    else 0

count_from : ℕ → Bytes → ℕ
count_from skip [] = 0
count_from zero (b ∷ bs) = suc (count_from (tail_size b bs) bs)
count_from (suc k) (b ∷ bs) = count_from k bs

-- `len([]rune(s))`
unfoldable pub rune_count : Bytes → ℕ
unfolding count_from tail_size
rune_count s = count_from 0 s
