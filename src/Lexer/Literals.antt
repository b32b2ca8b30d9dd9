-- ===== src/Lexer/Literals.antt =====
-- internal/lexer/lexer.go: numbers, identifiers and comments.
pub mod Longest
use kukicha.Prelude.{
  ℕ, Bool, true, false, not, ◌&&◌, ◌||◌, ◌∷◌, [], Bytes, codes, has_prefix, ◌==◌, if◌then◌else◌,
  top_or,
}
use kukicha.Token.{
  TokenType, token_integer, token_float, token_func, token_comment, token_directive,
}
use kukicha.Token.Keywords.{lookup_keyword}
use kukicha.Lexer.Runes.{is_digit, is_hex_digit, is_octal_digit, is_alpha_numeric}
use kukicha.Lexer.Utf8.{encode}
use kukicha.Lexer.Cursor.{Cursor, peek, peek_next, advance, skip_while}
use kukicha.Lexer.State.{
  Lexer, Message, error, add_token, add_token_with_lexeme, on_cursor, no_hex_digits,
  no_octal_digits, no_binary_digits,
}

-- The two digits that the binary prefix tests for.
unfoldable pub is_binary_digit : ℕ → Bool
is_binary_digit c = c == b'0' || c == b'1'

-- Digits, and the `_` that may stand among them.
abbrev pub digits_or : (ℕ → Bool) → Cursor → Cursor
digits_or p = skip_while (λ c. p c || c == b'_')

-- One of the three blocks for a prefix: its letter, a check for a first digit, and the digits.
unfoldable pub scan_radix : (ℕ → Bool) → Message → Lexer → Lexer
scan_radix p missing l =
    let l1 = on_cursor advance l in
    let l2 = if p (peek l1.cursor) then l1 else error missing l1 in
    add_token token_integer (on_cursor (digits_or p) l2)

-- The rest of `scanNumber`, for decimal digits.
unfoldable pub scan_decimal : Lexer → Lexer
scan_decimal l =
    let l1 = on_cursor (digits_or is_digit) l in
    if peek l1.cursor == b'.' && is_digit (peek_next l1.cursor)
    then add_token token_float (on_cursor (λ k. digits_or is_digit (advance k)) l1)
    else add_token token_integer l1

-- `scanNumber`, behind the first digit.
unfoldable pub scan_number : Lexer → Lexer
scan_number l =
    let zero_first = top_or 0 l.cursor.lexeme == b'0' in
    let next = peek l.cursor in
    if zero_first && (next == b'x' || next == b'X')
    then scan_radix is_hex_digit no_hex_digits l
    else if zero_first && (next == b'o' || next == b'O')
    then scan_radix is_octal_digit no_octal_digits l
    else if zero_first && (next == b'b' || next == b'B')
    then scan_radix is_binary_digit no_binary_digits l
    else scan_decimal l

abbrev starts_function : TokenType → Bool
starts_function token_func = true
starts_function _ = false

-- `scanIdentifier`, behind the first letter.
unfoldable pub scan_identifier : Lexer → Lexer
scan_identifier l =
    let l1 = on_cursor (skip_while is_alpha_numeric) l in
    let text = encode l1.cursor.lexeme in
    let type = lookup_keyword text in
    let l2 = add_token_with_lexeme type text l1 in
    record l2 {
      layout = record l2.layout {
        in_function_literal = starts_function type || l2.layout.in_function_literal;
      };
    }

-- `scanComment`, behind the `#`.
unfoldable pub scan_comment : Lexer → Lexer
scan_comment l =
    let l1 = on_cursor (skip_while (λ c. not (c == 10))) l in
    if has_prefix (encode l1.cursor.lexeme) (codes "# kuki:")
    then add_token token_directive l1
    else add_token token_comment l1
