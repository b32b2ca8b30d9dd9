-- ===== src/Lexer/Strings.antt =====
-- internal/lexer/lexer.go: string literals: interpolation, the dedent of multi-line
-- strings and their second scan, and raw strings.
pub mod Dedent
use mathlib.Core.Option.{get_or}
use kukicha.Prelude.{
  has_prefix, ℕ, zero, suc, ◌+◌, ◌-◌, ◌*◌, Bool, true, false, not, ◌&&◌, ◌||◌, List, [], ◌∷◌, ◌++◌,
  Option, none, some, Bytes, codes, ltb, leb, ◌==◌, if◌then◌else◌, length, is_empty, top_or,
}
use kukicha.Token.{
  TokenType, token_string, token_string_head, token_string_mid, token_string_tail, token_string_raw,
}
use kukicha.Lexer.Runes.{is_alpha, is_octal_digit, hex_digit}
use kukicha.Lexer.Utf8.{encode_rune}
use kukicha.Lexer.Cursor.{
  Cursor, is_at_end, matches, peek, peek_next, advance, take_rune, restart, next_line,
}
use kukicha.Lexer.State.{
  Lexer, Layout, InterpState, Message, error, add_token_with_lexeme, on_cursor, unterminated_string,
  nul_in_string, incomplete_hex_at_end, incomplete_hex, octal_out_of_range, unterminated_raw_string,
  nul_in_raw_string,
}
use kukicha.Lexer.Strings.Dedent.{dedent_triple_quote, inject}
use kukicha.Lexer.Escapes.{scan_string_escape, Scanned}

-- `isInterpStart`
unfoldable pub is_interp_start : Cursor → Bool
is_interp_start k = is_alpha (peek_next k)

-- `value.WriteRune(l.advance()); l.line++; l.column = 0`
abbrev pub take_newline : Lexer → Lexer
take_newline l = on_cursor (λ k. next_line (advance k)) l

abbrev pub push_interp : ℕ → Lexer → Lexer
push_interp q l = record l {
  layout = record l.layout {
    interp_stack = record { interp_depth = 0; quote = q } ∷ l.layout.interp_stack;
  };
}

-- What one round of the loop of `scanStringBody` does: go on, or return.
pub data Round : Type 0 where
  again : Lexer → Bytes → Round
  done : Lexer → Round

unfoldable pub body_round : TokenType → TokenType → ℕ → Lexer → Bytes → Round
body_round interp end q l v =
    let c = peek l.cursor in
    if is_at_end l.cursor
    then done (error unterminated_string l)
    else if c == q
    then done (add_token_with_lexeme end v (on_cursor advance l))
    else if c == 10
    then (if q == b'"'
        then done (error unterminated_string l)
        else again (take_newline l) (v ++ encode_rune 10))
    else if c == b'\\'
    then (let (l1, v1) = scan_string_escape l v in again l1 v1)
    else if c == b'{' && is_interp_start l.cursor
    then done (push_interp q (add_token_with_lexeme interp v (on_cursor advance l)))
    else if c == 0
    then done (error nul_in_string (on_cursor advance l))
    else again (on_cursor advance l) (v ++ encode_rune c)

-- The loop, on fuel: each round but the last takes a rune, so one more than what is left is enough.
unfoldable pub run_body : ℕ → TokenType → TokenType → ℕ → Lexer → Bytes → Option Lexer
run_body zero interp end q l v = none
run_body (suc f) interp end q l v = elim (body_round interp end q l v) [
  | again l1 v1 ↦ run_body f interp end q l1 v1
  | done l1 ↦ some l1
]

-- `scanStringBody`
unfoldable pub scan_string_body : TokenType → TokenType → ℕ → Lexer → Lexer
unfolding run_body body_round
scan_string_body interp end q l = get_or (run_body (suc (length l.cursor.rest)) interp end q l []) l

-- `scanStringContinuation`
unfoldable pub scan_string_continuation : ℕ → Lexer → Lexer
scan_string_continuation q l = scan_string_body token_string_mid token_string_tail q l

-- The end of `scanStringFromContent`: `inject` and a closing quote stand in front of what is left.
abbrev pub splice : List ℕ → Cursor → Cursor
splice content k = record k { rest = inject false content ++ b'"' ∷ k.rest }

-- `scanStringFromContent`
unfoldable pub scan_string_from_content : List ℕ → Lexer → Lexer
scan_string_from_content content l =
    scan_string_body token_string_head token_string b'"' (on_cursor (splice content) l)

-- The end of `scanTripleQuoteString` and of `scanSingleQuoteString`: the content is scanned with
-- the line of the opening quote, and the position behind the closing quote is restored.
unfoldable pub rescan : ℕ → List ℕ → Lexer → Lexer
rescan start_line raw l =
    let l1 = on_cursor (λ k. record k { line = start_line }) l in
    let l2 = scan_string_from_content (dedent_triple_quote raw) l1 in
    on_cursor (λ k. record k { line = l.cursor.line; column = l.cursor.column }) l2

-- A rune of the raw content taken, with its effect on the line.
abbrev pub take_raw : ℕ → List ℕ → Cursor → Cursor
take_raw c cs k = if c == 10 then next_line (take_rune c cs k) else take_rune c cs k

-- The loop of `scanTripleQuoteString`, with the raw content so far.
unfoldable pub triple_run : List ℕ → Cursor → List ℕ → Cursor × List ℕ
triple_run [] k raw = (k, raw)
triple_run (c ∷ cs) k raw =
    let more = triple_run cs (take_raw c cs k) (raw ++ c ∷ []) in
    if c == b'"' && has_prefix cs (b'"' ∷ b'"' ∷ [])
    then (advance (advance (advance k)), raw)
    else more

-- `scanTripleQuoteString`
unfoldable pub scan_triple_quote_string : Lexer → Lexer
scan_triple_quote_string l =
    let (k, raw) = triple_run l.cursor.rest l.cursor [] in
    rescan l.cursor.line raw (record l { cursor = k })

-- `scanString`, behind the opening quote.
unfoldable pub scan_string : Lexer → Lexer
scan_string l =
    if matches b'"' l.cursor
    then (if peek_next l.cursor == b'"'
        then scan_triple_quote_string (on_cursor (λ k. advance (advance k)) l)
        else add_token_with_lexeme token_string [] (on_cursor advance l))
    else scan_string_body token_string_head token_string b'"' l

abbrev pub head_quote : List ℕ → Bool
head_quote cs = top_or 0 cs == b'\''

-- The loop of `scanSingleQuoteString`. `escaped` holds behind a backslash that stands before a
-- single quote: that quote is then content, and the backslash is not.
unfoldable pub single_run : Bool → List ℕ → Cursor → List ℕ → Cursor × List ℕ
single_run escaped [] k raw = (k, raw)
single_run true (c ∷ cs) k raw = single_run false cs (take_rune c cs k) (raw ++ c ∷ [])
single_run false (c ∷ cs) k raw =
    let escape = c == b'\\' && head_quote cs in
    let more = single_run escape cs (take_raw c cs k) (if escape then raw else raw ++ c ∷ []) in
    if c == b'\'' then (take_rune c cs k, raw) else more

-- `scanSingleQuoteString`, behind the opening quote.
unfoldable pub scan_single_quote_string : Lexer → Lexer
scan_single_quote_string l =
    let (k, raw) = single_run false l.cursor.rest l.cursor [] in
    rescan l.cursor.line raw (record l { cursor = k })

-- The loop of `scanRawString`, with the content so far.
unfoldable pub raw_run : List ℕ → Lexer → ℕ → Bytes → Lexer
raw_run [] l start_line v =
    error unterminated_raw_string (on_cursor (λ k. record k { line = start_line }) l)
raw_run (c ∷ cs) l start_line v =
    let more = raw_run cs (on_cursor (take_raw c cs) l) start_line (v ++ encode_rune c) in
    if c == b'`'
    then add_token_with_lexeme token_string_raw v (on_cursor (take_rune c cs) l)
    else if c == 0
    then error nul_in_raw_string (on_cursor (take_rune c cs) l)
    else more

-- `scanRawString`, behind the opening backtick.
unfoldable pub scan_raw_string : Lexer → Lexer
unfolding raw_run
scan_raw_string l = raw_run l.cursor.rest l l.cursor.line []
