-- ===== src/Lexer/Escapes.antt =====
-- internal/lexer/lexer.go: `scanStringEscape`.
pub mod Octal
use kukicha.Prelude.{
  ℕ, zero, suc, ◌+◌, ◌-◌, ◌*◌, not, ◌&&◌, ◌||◌, [], ◌∷◌, ◌++◌, Option, none, some, Bytes, ltb, ◌==◌,
  if◌then◌else◌,
}
use kukicha.Lexer.Runes.{is_octal_digit, hex_digit}
use kukicha.Lexer.Utf8.{encode_rune}
use kukicha.Lexer.Cursor.{Cursor, is_at_end, peek, peek_next, advance}
use kukicha.Lexer.State.{
  Lexer, error, on_cursor, incomplete_hex_at_end, incomplete_hex, octal_out_of_range,
}

-- The escapes of one rune.
unfoldable pub simple_escape : ℕ → Option ℕ
simple_escape c =
    if c == b'n'
    then some 10
    else if c == b't'
    then some 9
    else if c == b'r'
    then some 13
    else if c == b'\\' || c == b'"' || c == b'\''
    then some c
    else if c == b'{'
    then some 0xE000
    else if c == b'}'
    then some 0xE001
    else none

-- The lexer after a step of an escape, and the content of the literal so far.
abbrev pub Scanned : Type 0
Scanned = Lexer × Bytes

-- `case 's'`: \sep stands for the path separator.
unfoldable pub escape_sep : Lexer → Bytes → Scanned
escape_sep l v =
    if peek l.cursor == b'e' && peek_next l.cursor == b'p'
    then (on_cursor (λ k. advance (advance k)) l, v ++ encode_rune 0xE002)
    else (l, v ++ encode_rune b's')

hex_value : Option ℕ → Option ℕ → ℕ → ℕ → Bytes
hex_value (some hi) (some lo) h1 h2 = encode_rune (hi * 16 + lo)
hex_value _ _ h1 h2 = b'\\' ∷ b'x' ∷ (encode_rune h1 ++ encode_rune h2)

-- `case 'x'`
unfoldable pub escape_hex : Lexer → Bytes → Scanned
unfolding hex_value
escape_hex l v =
    if is_at_end l.cursor
    then (error incomplete_hex_at_end l, v)
    else let h1 = peek l.cursor in
      let l1 = on_cursor advance l in
      if is_at_end l1.cursor
      then (error incomplete_hex l1, v)
      else let h2 = peek l1.cursor in
        (on_cursor advance l1, v ++ hex_value (hex_digit h1) (hex_digit h2) h1 h2)

-- The loop `for range 2` over further octal digits, with the rounds left.
unfoldable pub octal_digits : ℕ → ℕ → Cursor → Cursor × ℕ
octal_digits zero oct k = (k, oct)
octal_digits (suc n) oct k =
    let more = octal_digits n (oct * 8 + (peek k - b'0')) (advance k) in
    if not (is_at_end k) && is_octal_digit (peek k) then more else (k, oct)

-- `default`; `WriteByte` appends one byte.
unfoldable pub escape_octal : ℕ → Lexer → Bytes → Scanned
escape_octal c l v =
    let (k, oct) = octal_digits 2 (c - b'0') l.cursor in
    let l1 = record l { cursor = k } in
    if not (is_octal_digit c)
    then (l, v ++ encode_rune c)
    else if ltb 255 oct
    then (error octal_out_of_range l1, v)
    else (l1, v ++ oct ∷ [])

unfoldable pub escape_of : Option ℕ → ℕ → Lexer → Bytes → Scanned
escape_of (some r) c l v = (l, v ++ encode_rune r)
escape_of none c l v =
    if c == b's' then escape_sep l v else if c == b'x' then escape_hex l v else escape_octal c l v

-- `scanStringEscape`
unfoldable pub scan_string_escape : Lexer → Bytes → Scanned
unfolding escape_of
scan_string_escape l v =
    let l1 = on_cursor advance l in
    if is_at_end l1.cursor
    then (l1, v)
    else let c = peek l1.cursor in escape_of (simple_escape c) c (on_cursor advance l1) v
