-- ===== src/Lexer/Invariant/Lines.antt =====
-- `handleIndentation` reads blanks alone, and leaves its mark on the line in place.
use kukicha.Prelude.{
  ℕ, ◌+◌, List, [], ◌∷◌, ◌≡◌, refl, ap, arith, length, if◌then◌else◌, ◌==◌, Bool-cases, inl, inr,
}
use kukicha.Lexer.Cursor.{Cursor, take_rune}
use kukicha.Lexer.Runes.{is_blank}
use kukicha.Lexer.State.{Lexer, add_token, add_token_with_lexeme, error}
use kukicha.Lexer.Indentation.{
  count_blanks, open_indent, close_indent, close_run, close_indents, change_indent, indent_line,
  handle_indentation,
}
use kukicha.Lexer.Shrinking.{Reads, Reads-refl}
use kukicha.Lexer.Scan.{weight}

-- The position and the mark are the same.
pub record StaysOnLine (l m : Lexer) : Type 0 where
  pub same_cursor : m.cursor ≡ l.cursor
  pub same_mark : m.layout.indentation_handled ≡ l.layout.indentation_handled

close_indent-StaysOnLine : (l : Lexer) → StaysOnLine l (close_indent l)
unfolding close_indent add_token add_token_with_lexeme
close_indent-StaysOnLine l = ground arith

close_run-StaysOnLine : (stack : List ℕ) (n : ℕ) (l : Lexer) → StaysOnLine l (close_run stack n l)
unfolding close_run
close_run-StaysOnLine [] n l = ground arith
close_run-StaysOnLine (top ∷ []) n l = ground arith
close_run-StaysOnLine (top ∷ below ∷ stack) n l =
    ground
      (arith, close_indent-StaysOnLine l, close_run-StaysOnLine (below ∷ stack) n (close_indent l))

indent_line-StaysOnLine : (n tabs : ℕ) (l : Lexer) → StaysOnLine l (indent_line n tabs l)
unfolding indent_line change_indent open_indent close_indents add_token add_token_with_lexeme error
indent_line-StaysOnLine n tabs l = ground (arith, close_run-StaysOnLine l.layout.indent_stack n l)

count_blanks-Reads :
    (cs : List ℕ) (k : Cursor) (n t : ℕ) → k.rest ≡ cs → Reads k (count_blanks cs k n t).0
unfolding count_blanks
count_blanks-Reads [] k n t e = Reads-refl k
count_blanks-Reads (c ∷ cs) k n t e = elim (Bool-cases (is_blank c)) [
  | inl h ↦ rw h (
      let r =
        count_blanks-Reads cs (take_rune c cs k) (if c == b' ' then n + 1 else n)
          (if c == b' ' then t else t + 1) refl in
      omega (arith, r, ap weight e, ap (length {0}) e))
  | inr h ↦ rw h (Reads-refl k)
]

pub handle_indentation-Reads : (l : Lexer) → Reads l.cursor (handle_indentation l).cursor
unfolding handle_indentation
handle_indentation-Reads l =
    let r = count_blanks l.cursor.rest l.cursor 0 0 in
    rw (indent_line-StaysOnLine r.1 r.2 (record l { cursor = r.0 })).same_cursor
      (count_blanks-Reads l.cursor.rest l.cursor 0 0 refl)

pub handle_indentation-handled :
    (l : Lexer) → (handle_indentation l).layout.indentation_handled ≡ l.layout.indentation_handled
unfolding handle_indentation
handle_indentation-handled l =
    let r = count_blanks l.cursor.rest l.cursor 0 0 in
    (indent_line-StaysOnLine r.1 r.2 (record l { cursor = r.0 })).same_mark
