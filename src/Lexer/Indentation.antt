-- ===== src/Lexer/Indentation.antt =====
-- internal/lexer/lexer.go: `handleIndentation`, and the dedents at the end of the file.
pub mod Levels
use kukicha.Prelude.{
  ℕ, ◌+◌, ◌-◌, ◌*◌, ◌/◌, ◌%◌, Bool, true, false, not, ◌&&◌, ◌||◌, List, [], ◌∷◌, ltb, ◌==◌,
  if◌then◌else◌, top_or, rest_of,
}
use mathlib.Core.List.{reverse}
use kukicha.Token.{token_indent, token_dedent}
use kukicha.Lexer.Runes.{is_blank}
use kukicha.Lexer.Cursor.{Cursor, is_at_end, peek, take_rune}
use kukicha.Lexer.State.{
  Lexer, Layout, error, add_token, on_layout, in_paren_continuation, tabs_not_allowed,
  not_multiple_of_four, jumped, dedent_mismatch,
}

-- The loop that counts and takes the leading spaces and tabs.
unfoldable pub count_blanks : List ℕ → Cursor → ℕ → ℕ → Cursor × ℕ × ℕ
count_blanks [] k spaces tabs = (k, spaces, tabs)
count_blanks (c ∷ cs) k spaces tabs =
    let more =
      count_blanks cs (take_rune c cs k) (if c == b' ' then spaces + 1 else spaces)
        (if c == b' ' then tabs else tabs + 1) in
    if is_blank c then more else (k, spaces, tabs)

abbrev pub top_indent : Layout → ℕ
top_indent y = top_or 0 y.indent_stack

-- The increase: one level is pushed, with the closure body that it may open.
unfoldable pub open_indent : ℕ → Lexer → Lexer
open_indent spaces l =
    let pushed = on_layout (λ y. record y { indent_stack = spaces ∷ y.indent_stack }) l in
    let l1 = add_token token_indent pushed in
    if l1.layout.pending_closure_block
    then on_layout
        (λ y. record y {
          closure_indent_stack = spaces ∷ y.closure_indent_stack;
          closure_paren_depth_stack = y.paren_depth ∷ y.closure_paren_depth_stack;
          pending_closure_block = false;
        })
        l1
    else l1

-- Whether the indent level has fallen below the topmost closure body.
unfoldable pub closure_closed : List ℕ → List ℕ → Bool
closure_closed closures [] = false
closure_closed [] (top ∷ _) = false
closure_closed (opened ∷ _) (top ∷ _) = ltb top opened

-- One round of the loop that closes levels.
unfoldable pub close_indent : Lexer → Lexer
unfolding closure_closed
close_indent l =
    let l1 = add_token token_dedent l in
    let stack = rest_of l1.layout.indent_stack in
    let l2 = on_layout (λ y. record y { indent_stack = stack }) l1 in
    if closure_closed l2.layout.closure_indent_stack stack
    then on_layout
        (λ y. record y {
          closure_indent_stack = rest_of y.closure_indent_stack;
          closure_paren_depth_stack = rest_of y.closure_paren_depth_stack;
        })
        l2
    else l2

-- The loop: levels are closed down to one that is not above `spaces`, the last one never.
unfoldable pub close_run : List ℕ → ℕ → Lexer → Lexer
close_run [] spaces l = l
close_run (top ∷ []) spaces l = l
close_run (top ∷ below ∷ stack) spaces l =
    if ltb spaces top then close_run (below ∷ stack) spaces (close_indent l) else l

unfoldable pub close_indents : ℕ → Lexer → Lexer
unfolding close_run
close_indents spaces l =
    let valid_levels = reverse l.layout.indent_stack in
    let l1 = close_run l.layout.indent_stack spaces l in
    if in_paren_continuation l1.layout
    then l1
    else if top_indent l1.layout == spaces
    then l1
    else error (dedent_mismatch spaces valid_levels) l1

-- The comparison with the current level.
unfoldable pub change_indent : ℕ → Lexer → Lexer
unfolding open_indent close_indents
change_indent spaces l =
    let current = top_indent l.layout in
    if ltb current spaces
    then (if not l.layout.pending_closure_block && not (spaces == current + 4)
        then error (jumped current spaces) l
        else open_indent spaces l)
    else if ltb spaces current
    then close_indents spaces l
    else l

-- The multiple of four that the message proposes.
unfoldable pub nearest_indent : ℕ → ℕ
nearest_indent spaces = let nearest = (spaces + 2) / 4 * 4 in if nearest == 0 then 4 else nearest

-- Blank lines and lines that hold a comment alone.
abbrev pub is_empty_line : Cursor → Bool
is_empty_line k = is_at_end k || peek k == 10 || peek k == 13 || peek k == b'#'

-- `handleIndentation` once the blanks are counted and taken.
unfoldable pub indent_line : ℕ → ℕ → Lexer → Lexer
indent_line spaces tabs l =
    if ltb 0 tabs
    then error tabs_not_allowed l
    else if is_empty_line l.cursor
    then l
    else if in_paren_continuation l.layout && not l.layout.pending_closure_block
    then l
    else if not (spaces % 4 == 0)
    then error (not_multiple_of_four spaces (nearest_indent spaces)) l
    else change_indent spaces l

-- `handleIndentation`
unfoldable pub handle_indentation : Lexer → Lexer
handle_indentation l =
    let (k, spaces, tabs) = count_blanks l.cursor.rest l.cursor 0 0 in
    indent_line spaces tabs (record l { cursor = k })

-- The loop of `ScanTokens` that emits the remaining dedents.
unfoldable pub close_all : List ℕ → Lexer → Lexer
close_all [] l = l
close_all (top ∷ []) l = l
close_all (top ∷ below ∷ stack) l =
    close_all (below ∷ stack)
      (on_layout (λ y. record y { indent_stack = below ∷ stack }) (add_token token_dedent l))
