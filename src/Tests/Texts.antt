-- ===== src/Tests/Texts.antt =====
-- Literals on small texts.
use kukicha.Prelude.{ℕ, ◌≤◌, List, [], ◌∷◌, ◌++◌, some, ◌≡◌, refl, false, codes, sum_by, arith}
use kukicha.Token.{Token, type_index, token_string, token_string_head}
use kukicha.Lexer.Utf8.{encode}
use kukicha.Lexer.Cursor.{Cursor}
use kukicha.Lexer.State.{Lexer, new_lexer, on_cursor, add_token_with_lexeme}
use kukicha.Lexer.Strings.{scan_string, rescan, single_run, scan_single_quote_string, run_body}
use kukicha.Lexer.Strings.Dedent.{
  inject, dedent_triple_quote, split_lines, join_lines, is_blank_line, line_indent, min_indent,
}
use kukicha.Lexer.Strings.Dedent.Size.{dedent_triple_quote-le}
use mathlib.Core.List.{map}
use kukicha.Lexer.Strings.Dedent.Indented.{blanks, is_break, dedent_triple_quote-blanks}
use kukicha.Lexer.Runes.{is_octal_digit}
use kukicha.Lexer.Escapes.{escape_octal}
use kukicha.Lexer.Escapes.Octal.{Writes, escape_octal-Writes}
use kukicha.Lexer.Multiline.Regular.{scan_string-plain}
use kukicha.Lexer.Multiline.{special, rescan-plain}
use kukicha.Lexer.Multiline.Quotes.{
  quote_or_backslash, single_run-closed, single_run-escaped_backslash,
  scan_single_quote_string_unterminated,
}
use kukicha.Lexer.Shrinking.{Scans}
use kukicha.Lexer.Shrinking.Source.{source}
use kukicha.Lexer.Shrinking.Body.{run_body-Scans}

abbrev raw : List ℕ
raw = codes "\n    say \"hi\"\n      twice\n    "

dedent_raw : dedent_triple_quote raw ≡ codes "say \"hi\"\n  twice\n"
unfolding dedent_triple_quote split_lines join_lines is_blank_line line_indent min_indent
dedent_raw = refl

abbrev behind : Lexer
behind = new_lexer (codes " + x\n") "a.kuki"

rescan-plain_example :
    (k : Cursor) × (rescan 1 raw behind
      ≡ on_cursor
          (λ c. record c { line = behind.cursor.line; column = behind.cursor.column })
          (add_token_with_lexeme token_string
            (encode (dedent_triple_quote raw))
            (record behind { cursor = k })))
    × (k.rest ≡ behind.cursor.rest)
rescan-plain_example = rescan-plain 1 raw behind (unfold special in refl)

abbrev at_start : Cursor
at_start = (new_lexer [] "a.kuki").cursor

single_run-closed_example :
    ((single_run false (codes "ab" ++ b'\'' ∷ codes " c") at_start []).1 ≡ codes "ab")
    × ((single_run false (codes "ab" ++ b'\'' ∷ codes " c") at_start []).0.rest ≡ codes " c")
single_run-closed_example =
    single_run-closed (codes "ab") (codes " c") at_start (unfold quote_or_backslash in refl)

single_run-escaped_backslash_example :
    (m : Cursor) × (single_run false (codes "ab" ++ b'\\' ∷ b'\\' ∷ b'\'' ∷ codes "c") at_start []
      ≡ single_run false (codes "c") m (codes "ab" ++ b'\\' ∷ b'\'' ∷ []))
single_run-escaped_backslash_example =
    single_run-escaped_backslash (codes "ab") (codes "c") at_start
      (unfold quote_or_backslash in refl)

abbrev unclosed : Lexer
unclosed = new_lexer (codes "ab\nc") "a.kuki"

scan_single_quote_string_unterminated_example :
    ((scan_single_quote_string unclosed).errors ≡ unclosed.errors)
    × (t : Token) × ((scan_single_quote_string unclosed).tokens ≡ unclosed.tokens ++ t ∷ [])
    × (t.type ≡ token_string)
scan_single_quote_string_unterminated_example =
    scan_single_quote_string_unterminated (codes "ab\nc") unclosed refl
      (unfold quote_or_backslash in refl) (unfold special in refl)

abbrev in_body : Lexer
in_body = new_lexer (codes "a\"") "a.kuki"

run_body-Scans_example :
    (n : Lexer) × (run_body 3 token_string_head token_string b'"' in_body [] ≡ some n)
    × Scans in_body n
    × (source n.cursor ≡ source in_body.cursor)
unfolding type_index
run_body-Scans_example =
    run_body-Scans token_string_head token_string (refl, refl) (refl, refl) 3 b'"' in_body []
      (omega arith)

dedent_triple_quote-le_example : sum_by (λ _. 1) (dedent_triple_quote raw) ≤ sum_by (λ _. 1) raw
dedent_triple_quote-le_example = dedent_triple_quote-le (λ _. 1) raw

abbrev two_lines : List (List ℕ)
two_lines = codes "say \"hi\"" ∷ codes "  twice" ∷ []

dedent_triple_quote-blanks_example :
    dedent_triple_quote (10 ∷ join_lines (map (blanks 4) two_lines) ++ 10 ∷ [])
    ≡ join_lines two_lines
unfolding is_break min_indent is_blank_line line_indent
dedent_triple_quote-blanks_example = dedent_triple_quote-blanks 4 two_lines (refl, (refl, tt)) refl

abbrev escaped : Lexer
escaped = new_lexer (codes "a\\\"b\" + c") "a.kuki"

scan_string-plain_example :
    (k : Cursor) × (scan_string escaped
      ≡ add_token_with_lexeme token_string (encode (codes "a\"b")) (record escaped { cursor = k }))
    × (k.rest ≡ codes " + c")
unfolding inject special
scan_string-plain_example = scan_string-plain b'a' (codes "\"b") (codes " + c") escaped refl refl

abbrev at_octal : Lexer
at_octal = new_lexer (codes "77\"") "a.kuki"

escape_octal-Writes_example : Writes 511 at_octal [] (escape_octal b'7' at_octal [])
unfolding is_octal_digit
escape_octal-Writes_example =
    escape_octal-Writes b'7' b'7' b'7' (codes "\"") at_octal [] refl refl refl refl
