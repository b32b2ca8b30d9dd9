-- ===== src/Lexer/Braces.antt =====
-- internal/lexer/lexer.go: the braces of blocks, of literals and of interpolations in `scanToken`.

use kukicha.Prelude.{◌+◌, ◌-◌, Bool, true, false, List, [], ◌∷◌, ◌==◌, if◌then◌else◌}
use kukicha.Token.{token_lbrace, token_rbrace, token_indent, token_dedent}
use kukicha.Lexer.Cursor.{restart}
use kukicha.Lexer.State.{Lexer, Layout, InterpState, add_token, on_cursor, on_layout}
use kukicha.Lexer.Strings.{scan_string_continuation}

unfoldable pub deepen_interp : List InterpState → List InterpState
deepen_interp [] = []
deepen_interp (s ∷ ss) = record s { interp_depth = s.interp_depth + 1 } ∷ ss

-- `case '{'`
unfoldable pub open_brace : Lexer → Lexer
unfolding deepen_interp
open_brace l =
    let l1 = on_layout (λ y. record y { interp_stack = deepen_interp y.interp_stack }) l in
    if l1.layout.block_keyword_seen
    then add_token token_indent (
        on_layout
          (λ y. record y {
            brace_stack = true ∷ y.brace_stack;
            brace_block_depth = y.brace_block_depth + 1;
            block_keyword_seen = false;
          })
          l1)
    else add_token token_lbrace (
        on_layout
          (λ y. record y { brace_stack = false ∷ y.brace_stack; brace_depth = y.brace_depth + 1 })
          l1)

-- `if l.braceDepth > 0 { l.braceDepth-- }`
abbrev pub leave_brace : Layout → Layout
leave_brace y = record y { brace_depth = y.brace_depth - 1 }

-- The pop of the brace stack.
unfoldable pub pop_brace : List Bool → Lexer → Lexer
pop_brace [] l = add_token token_rbrace (on_layout leave_brace l)
pop_brace (true ∷ bs) l =
    add_token token_dedent (
      on_layout (λ y. record y { brace_stack = bs; brace_block_depth = y.brace_block_depth - 1 }) l)
pop_brace (false ∷ bs) l =
    add_token token_rbrace (on_layout (λ y. leave_brace (record y { brace_stack = bs })) l)

-- `case '}'`, on the stack of open interpolations.
unfoldable pub close_brace : List InterpState → Lexer → Lexer
close_brace [] l = pop_brace l.layout.brace_stack l
close_brace (s ∷ ss) l =
    if s.interp_depth == 0
    then scan_string_continuation s.quote
        (on_cursor restart (on_layout (λ y. record y { interp_stack = ss }) l))
    else pop_brace l.layout.brace_stack (
        on_layout
          (λ y. record y { interp_stack = record s { interp_depth = s.interp_depth - 1 } ∷ ss }) l)
