-- ===== src/Lexer/Cursor.antt =====
-- internal/lexer/lexer.go: the position in the source, and the helpers that move it.
-- `source` is cut in two at `current`: `lexeme` is source[start:current] and `rest` is
-- source[current:]. What lies before `start` is never read again. `line` and `column` are the
-- program's; both are at least 0 throughout, so they are natural numbers.
use kukicha.Prelude.{
  ℕ, ◌+◌, Bool, false, List, [], ◌∷◌, ◌++◌, ◌==◌, if◌then◌else◌, is_empty, rest_of, top_or,
}
use kukicha.Lexer.Runes.{is_blank}

pub record Cursor : Type 0 where
  pub lexeme : List ℕ
  pub rest : List ℕ
  pub line : ℕ
  pub column : ℕ

-- `isAtEnd`
abbrev pub is_at_end : Cursor → Bool
is_at_end k = is_empty k.rest

-- `peek` and `peekNext`: 0 past the end.
abbrev pub peek : Cursor → ℕ
peek k = top_or 0 k.rest

abbrev pub peek_next : Cursor → ℕ
peek_next k = top_or 0 (rest_of k.rest)

-- One rune taken, where `c ∷ cs` is what was left.
abbrev pub take_rune : ℕ → List ℕ → Cursor → Cursor
take_rune c cs k = record k { lexeme = k.lexeme ++ c ∷ []; rest = cs; column = k.column + 1 }

advance_over : List ℕ → Cursor → Cursor
advance_over [] k = k
advance_over (c ∷ cs) k = take_rune c cs k

-- `advance`; the rune that it returns is `peek` before the call.
unfoldable pub advance : Cursor → Cursor
unfolding advance_over
advance k = advance_over k.rest k

head_is : ℕ → List ℕ → Bool
head_is e [] = false
head_is e (c ∷ cs) = c == e

-- The test of `match`; where it holds the caller advances.
unfoldable pub matches : ℕ → Cursor → Bool
unfolding head_is
matches e k = head_is e k.rest

unfoldable pub skip_run : (ℕ → Bool) → List ℕ → Cursor → Cursor
skip_run p [] k = k
skip_run p (c ∷ cs) k = if p c then skip_run p cs (take_rune c cs k) else k

-- The loop `for !l.isAtEnd() && p(l.peek()) { l.advance() }`.
unfoldable pub skip_while : (ℕ → Bool) → Cursor → Cursor
unfolding skip_run
skip_while p k = skip_run p k.rest k

-- `l.start = l.current`
abbrev pub restart : Cursor → Cursor
restart k = record k { lexeme = [] }

-- `l.line++; l.column = 0`
abbrev pub next_line : Cursor → Cursor
next_line k = record k { line = k.line + 1; column = 0 }

indent_of : List ℕ → ℕ
indent_of [] = 0
indent_of (c ∷ cs) =
    let more = indent_of cs in if is_blank c then (if c == b' ' then 1 + more else more) else 0

-- `peekNextLineIndent`: the spaces among the blanks ahead.
unfoldable pub peek_next_line_indent : Cursor → ℕ
unfolding indent_of is_blank
peek_next_line_indent k = indent_of k.rest
