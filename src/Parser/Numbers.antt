-- ===== src/Parser/Numbers.antt =====
-- `strconv.ParseInt s 0 64`, which internal/parser/parser_expr.go calls for integer literals.
use kukicha.Prelude.{
  ℕ, ◌+◌, ◌-◌, ◌*◌, ◌^◌, Bool, true, false, not, ◌&&◌, ◌||◌, [], ◌∷◌, Bytes, ◌==◌, leb, ltb, ℤ, pos,
  negsuc, if◌then◌else◌, Option, none, some, is_empty,
}

-- The value of a digit or letter; what is neither has a value above all bases.
digit_value : ℕ → ℕ
digit_value c =
    if leb b'0' c && leb c b'9'
    then c - b'0'
    else if leb b'a' c && leb c b'z'
    then c - b'a' + 10
    else if leb b'A' c && leb c b'Z'
    then c - b'A' + 10
    else 64

-- The base, and the digits behind its prefix.
base_of : Bytes → ℕ × Bytes
base_of (z ∷ c ∷ d ∷ ds) =
    if z == b'0' && (c == b'b' || c == b'B')
    then (2, d ∷ ds)
    else if z == b'0' && (c == b'o' || c == b'O')
    then (8, d ∷ ds)
    else if z == b'0' && (c == b'x' || c == b'X')
    then (16, d ∷ ds)
    else if z == b'0'
    then (8, c ∷ d ∷ ds)
    else (10, z ∷ c ∷ d ∷ ds)
base_of (z ∷ c ∷ []) = if z == b'0' then (8, c ∷ []) else (10, z ∷ c ∷ [])
base_of (z ∷ []) = if z == b'0' then (8, []) else (10, z ∷ [])
base_of [] = (10, [])

-- The digits but for the underscores, read into a number of any size.
digits_value : ℕ → ℕ → Bytes → Option ℕ
unfolding digit_value
digits_value base acc [] = some acc
digits_value base acc (c ∷ cs) =
    let skipped = digits_value base acc cs in
    let next = digits_value base (acc * base + digit_value c) cs in
    if c == b'_' then skipped else if ltb (digit_value c) base then next else none

-- What `underscoreOK` saw last: a digit or the prefix, an underscore, anything else.
pub data Seen : Type 0 where
  digit : Seen
  underscore : Seen
  other : Seen

abbrev is_digit_of : Bool → ℕ → Bool
is_digit_of hex c =
    (leb b'0' c && leb c b'9')
    || (hex && ((leb b'a' c && leb c b'f') || (leb b'A' c && leb c b'F')))

underscores : Bool → Seen → Bytes → Bool
underscores hex underscore [] = false
underscores hex digit [] = true
underscores hex other [] = true
underscores hex digit (c ∷ cs) =
    let as_digit = underscores hex digit cs in
    let as_underscore = underscores hex underscore cs in
    let as_other = underscores hex other cs in
    if is_digit_of hex c then as_digit else if c == b'_' then as_underscore else as_other
underscores hex underscore (c ∷ cs) =
    let next = underscores hex digit cs in if is_digit_of hex c then next else false
underscores hex other (c ∷ cs) =
    let as_digit = underscores hex digit cs in
    let as_other = underscores hex other cs in
    if is_digit_of hex c then as_digit else if c == b'_' then false else as_other

abbrev is_prefix_letter : ℕ → Bool
is_prefix_letter c = c == b'b' || c == b'B' || c == b'o' || c == b'O' || c == b'x' || c == b'X'

underscore_ok : Bytes → Bool
unfolding underscores
underscore_ok (z ∷ c ∷ cs) =
    if z == b'0' && is_prefix_letter c
    then underscores (c == b'x' || c == b'X') digit cs
    else underscores false other (z ∷ c ∷ cs)
underscore_ok (z ∷ []) = underscores false other (z ∷ [])
underscore_ok [] = true

has_underscore : Bytes → Bool
has_underscore [] = false
has_underscore (c ∷ cs) = c == b'_' || has_underscore cs

parse_uint : Bytes → Option ℕ
unfolding base_of digits_value underscore_ok has_underscore
parse_uint s =
    if is_empty s || (has_underscore s && not (underscore_ok s))
    then none
    else digits_value (base_of s).0 0 (base_of s).1

abbrev in_range : Bool → ℕ → Option ℤ
in_range minus n =
    if minus
    then if leb n (2 ^ 63) then some (if n == 0 then pos 0 else negsuc (n - 1)) else none
    else if ltb n (2 ^ 63)
    then some (pos n)
    else none

abbrev and_in_range : Bool → Option ℕ → Option ℤ
and_in_range minus none = none
and_in_range minus (some n) = in_range minus n

-- `none` is an error of the syntax or of the range.
unfoldable pub parse_int : Bytes → Option ℤ
unfolding parse_uint
parse_int [] = none
parse_int (c ∷ cs) =
    if c == b'+'
    then and_in_range false (parse_uint cs)
    else if c == b'-'
    then and_in_range true (parse_uint cs)
    else and_in_range false (parse_uint (c ∷ cs))
