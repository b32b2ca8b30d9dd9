-- ===== src/Lexer/Scan.antt =====
-- internal/lexer/lexer.go: `scanToken` and `ScanTokens`.
use mathlib.Core.Option
use kukicha.Prelude.{
  ℕ, zero, suc, ◌+◌, ◌-◌, ◌*◌, ◌^◌, Bool, true, false, not, ◌&&◌, ◌||◌, List, [], ◌∷◌, Option, none,
  some, ltb, ◌==◌, if◌then◌else◌, is_empty, length, rest_of, sum_by,
}
use kukicha.Token.{
  TokenType, Token, token_newline, token_semicolon, token_lparen, token_rparen, token_lbracket,
  token_rbracket, token_comma, token_dot, token_plus, token_plus_plus, token_minus,
  token_minus_minus, token_star, token_slash, token_percent, token_colon, token_walrus,
  token_assign, token_double_equals, token_fat_arrow, token_bang, token_not_equals, token_lt,
  token_lte, token_arrow_left, token_gt, token_gte, token_bit_or, token_or_or, token_pipe,
  token_bit_and, token_and_and, token_bit_and_assign, token_eof,
}
use kukicha.Lexer.Runes.{is_digit, is_alpha, is_blank}
use kukicha.Lexer.Cursor.{
  peek, advance, matches, skip_while, restart, next_line, peek_next_line_indent,
}
use kukicha.Lexer.State.{
  Lexer, Layout, LexError, error, add_token, on_cursor, on_layout, in_paren_continuation,
  unexpected_character,
}
use kukicha.Lexer.Strings.{scan_string, scan_single_quote_string, scan_raw_string}
use kukicha.Lexer.Literals.{scan_number, scan_identifier, scan_comment}
use kukicha.Lexer.Indentation.{top_indent, handle_indentation, close_all}
use kukicha.Lexer.Merge.{merge_line_continuations}
use kukicha.Lexer.Braces.{open_brace, close_brace, leave_brace}

abbrev pub continue_line : Lexer → Lexer
continue_line = on_layout (λ y. record y { continuation_line = true })

-- Whether a block-bodied closure starts on the next line.
unfoldable pub opens_closure : Lexer → Bool
opens_closure l =
    (l.layout.after_fat_arrow || l.layout.in_function_literal)
    && ltb (top_indent l.layout) (peek_next_line_indent l.cursor)

unfoldable pub end_line : Lexer → Lexer
end_line l =
    if ltb 0 l.layout.brace_depth
    then continue_line l
    else if in_paren_continuation l.layout
    then (if opens_closure l
        then add_token token_newline (on_layout (λ y. record y { pending_closure_block = true }) l)
        else continue_line l)
    else add_token token_newline l

-- `case '\n'`, and `case '\r'` behind an optional '\n'.
unfoldable pub scan_newline : Lexer → Lexer
scan_newline l =
    let l1 =
      on_layout
        (λ y. record y {
          after_fat_arrow = false;
          in_function_literal = false;
          at_line_start = true;
          indentation_handled = false;
        })
        (end_line l) in
    on_cursor next_line l1

-- `match(e)`: the token `t2` if it takes a rune, and else what is made of `l`.
abbrev pub either : ℕ → TokenType → Lexer → Lexer → Lexer
either e t2 l other = if matches e l.cursor then add_token t2 (on_cursor advance l) else other

abbrev pub see_fat_arrow : Layout → Layout
see_fat_arrow y = record y { after_fat_arrow = true }

-- `case '='` where no second '=' follows.
unfoldable pub fat_arrow : Lexer → Lexer
fat_arrow l =
    if matches b'>' l.cursor
    then add_token token_fat_arrow (on_layout see_fat_arrow (on_cursor advance l))
    else add_token token_assign l

-- A `switch` of Go: the first case that holds, or the default.
abbrev pub switch : List (Bool × Lexer) → Lexer → Lexer
switch [] other = other
switch ((test, l) ∷ cases) other = if test then l else switch cases other

-- The cases of the switch for operators, with the tests of its default.
abbrev pub operator_cases : ℕ → Lexer → List (Bool × Lexer)
operator_cases c l =
    (c == b',', add_token token_comma l)
    ∷ (c == b'.', add_token token_dot l)
    ∷ (c == b'+', either b'+' token_plus_plus l (add_token token_plus l))
    ∷ (c == b'-', either b'-' token_minus_minus l (add_token token_minus l))
    ∷ (c == b'*', add_token token_star l)
    ∷ (c == b'/', add_token token_slash l)
    ∷ (c == b'%', add_token token_percent l)
    ∷ (c == b':', either b'=' token_walrus l (add_token token_colon l))
    ∷ (c == b'=', either b'=' token_double_equals l (fat_arrow l))
    ∷ (c == b'!', either b'=' token_not_equals l (add_token token_bang l))
    ∷ (c == b'<', either b'-' token_arrow_left l (either b'=' token_lte l (add_token token_lt l)))
    ∷ (c == b'>', either b'=' token_gte l (add_token token_gt l))
    ∷ (c == b'|', either b'>' token_pipe l (either b'|' token_or_or l (add_token token_bit_or l)))
    ∷ (
      c == b'&',
      either b'&' token_and_and l (either b'=' token_bit_and_assign l (add_token token_bit_and l)),
    )
    ∷ (is_digit c, scan_number l)
    ∷ (is_alpha c, scan_identifier l)
    ∷ []

-- The cases of the switch for operators, and its default.
unfoldable pub scan_operator : ℕ → Lexer → Lexer
scan_operator c l = switch (operator_cases c l) (error (unexpected_character c) l)

-- The other cases of the switch.
abbrev pub rune_cases : ℕ → Lexer → List (Bool × Lexer)
rune_cases c l =
    (is_blank c, on_cursor (skip_while is_blank) l)
    ∷ (c == 10, scan_newline l)
    ∷ (c == 13, scan_newline (if matches 10 l.cursor then on_cursor advance l else l))
    ∷ (c == b'#', scan_comment l)
    ∷ (c == b';', add_token token_semicolon l)
    ∷ (c == b'"', scan_string l)
    ∷ (c == b'\'', scan_single_quote_string l)
    ∷ (c == b'`', scan_raw_string l)
    ∷ (
      c == b'(',
      add_token token_lparen (on_layout (λ y. record y { paren_depth = y.paren_depth + 1 }) l),
    )
    ∷ (
      c == b')',
      add_token token_rparen (on_layout (λ y. record y { paren_depth = y.paren_depth - 1 }) l),
    )
    ∷ (
      c == b'[',
      add_token token_lbracket (on_layout (λ y. record y { brace_depth = y.brace_depth + 1 }) l),
    )
    ∷ (c == b']', add_token token_rbracket (on_layout leave_brace l))
    ∷ (c == b'{', open_brace l)
    ∷ (c == b'}', close_brace l.layout.interp_stack l)
    ∷ []

-- The other cases of the switch, on the rune that `advance` took.
unfoldable pub scan_rune : ℕ → Lexer → Lexer
scan_rune c l = switch (rune_cases c l) (scan_operator c l)

-- `c := l.advance(); l.atLineStart = false; switch c`
unfoldable pub scan_next : Lexer → Lexer
scan_next l =
    scan_rune (peek l.cursor)
      (on_layout (λ y. record y { at_line_start = false }) (on_cursor advance l))

-- The blanks at the start of a line are taken, and its indentation counts as handled.
abbrev pub skip_indentation : Lexer → Lexer
skip_indentation l = record l {
  cursor = restart (skip_while is_blank l.cursor);
  layout = record l.layout { indentation_handled = true };
}

abbrev pub at_unhandled_start : Layout → Bool
at_unhandled_start y = y.at_line_start && not y.indentation_handled

-- The first two blocks of `scanToken`.
unfoldable pub skip_continuation : Lexer → Lexer
skip_continuation l =
    let l1 =
      if at_unhandled_start l.layout && l.layout.continuation_line
      then skip_indentation (on_layout (λ y. record y { continuation_line = false }) l)
      else l in
    if at_unhandled_start l1.layout && ltb 0 l1.layout.brace_block_depth
    then skip_indentation l1
    else l1

abbrev pub set_handled : Lexer → Lexer
set_handled = on_layout (λ y. record y { indentation_handled = true })

-- The third block of `scanToken`, and what follows.
unfoldable pub scan_line_start : Lexer → Lexer
scan_line_start l =
    let c = peek l.cursor in
    if not (at_unhandled_start l.layout)
    then scan_next l
    else if is_blank c
    then handle_indentation (set_handled l)
    else if c == 10 || c == 13 || c == b'#'
    then scan_next l
    else if is_empty (rest_of l.layout.indent_stack)
    then scan_next (set_handled l)
    else handle_indentation (set_handled l)

-- A round of the loop of `ScanTokens`: `l.start = l.current; l.scanToken()`.
unfoldable pub scan_token : Lexer → Lexer
scan_token l = scan_line_start (skip_continuation (on_cursor restart l))

-- The loop of `ScanTokens`, on fuel; `none` means that the fuel ran out.
unfoldable pub scan_loop : ℕ → Lexer → Option Lexer
scan_loop zero l = none
scan_loop (suc f) l =
    let rest = scan_loop f (scan_token l) in if is_empty l.cursor.rest then some l else rest

-- What `ScanTokens` returns.
pub data Outcome : Type 0 where
  scanned : List Token → Outcome
  failed : List LexError → Outcome

-- Behind the loop: the remaining dedents, and the end of the file.
unfoldable pub close_file : Lexer → Lexer
close_file l = add_token token_eof (close_all l.layout.indent_stack l)

unfoldable pub outcome_of : Lexer → Lexer × Outcome
outcome_of l =
    if is_empty l.errors
    then (let merged = merge_line_continuations l.tokens in
        (record l { tokens = merged }, scanned merged))
    else (l, failed l.errors)

-- Fuel for the loop. A multi-line string is put back into the source with its quotes escaped, so
-- what is left may double, but then the quotes left weigh less: 2 for a single quote and 1 for a
-- double quote.
unfoldable pub quote_weight : ℕ → ℕ
quote_weight c = if c == b'"' then 1 else if c == b'\'' then 2 else 0

abbrev pub weight : List ℕ → ℕ
weight rest = sum_by quote_weight rest

unfoldable pub budget : List ℕ → ℕ
budget rest = 2 * (3 ^ weight rest * (length rest + 2))

-- `ScanTokens`: the lexer at its end, and what is returned; `none` means that the fuel ran out.
unfoldable pub scan_tokens : Lexer → Option (Lexer × Outcome)
scan_tokens l = Option.map (λ m. outcome_of (close_file m)) (scan_loop (budget l.cursor.rest + 2) l)
