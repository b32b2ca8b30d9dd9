-- ===== src/Lexer/Invariant/Indentation.antt =====
-- `handleIndentation` keeps the state well-formed.
use kukicha.Prelude.{
  ℕ, ◌%◌, ◌<◌, List, [], ◌∷◌, ◌≡◌, refl, arith, ltb, ◌==◌, Bool-cases, ==_iff, inl, inr,
}
use mathlib.Core.List.{reverse}
use kukicha.Token.{type_index, token_indent, token_dedent}
use kukicha.Lexer.Utf8.{encode}
use kukicha.Lexer.State.{
  Lexer, Message, jumped, tabs_not_allowed, not_multiple_of_four, dedent_mismatch, add_token,
  add_token_with_lexeme, error, on_layout,
}
use kukicha.Lexer.Nesting.{depth_of-add, IsTame-cursor}
use kukicha.Lexer.Indentation.{
  nearest_indent, count_blanks, top_indent, open_indent, close_indent, close_run, close_indents,
  change_indent, indent_line, handle_indentation, close_all,
}
use kukicha.Lexer.Shrinking.{error-Scans}
use kukicha.Lexer.Invariant.{IsValid, IsTame-IsValid}

open_indent-IsValid :
    (spaces : ℕ) (l : Lexer)
    → top_indent l.layout < spaces
    → spaces % 4 ≡ 0
    → IsValid l
    → IsValid (open_indent spaces l)
unfolding open_indent add_token add_token_with_lexeme type_index
open_indent-IsValid spaces l lt m v =
    let pushed = on_layout (λ y. record y { indent_stack = spaces ∷ y.indent_stack }) l in
    let d = depth_of-add token_indent (encode l.cursor.lexeme) pushed in ground (arith, d)

close_indent-IsValid :
    (top below : ℕ) (stack : List ℕ) (l : Lexer)
    → l.layout.indent_stack ≡ top ∷ below ∷ stack
    → IsValid l
    → IsValid (close_indent l) × ((close_indent l).layout.indent_stack ≡ below ∷ stack)
unfolding close_indent add_token add_token_with_lexeme type_index
close_indent-IsValid top below stack l e v =
    let d = depth_of-add token_dedent (encode l.cursor.lexeme) l in ground (arith, d)

-- What is left of the levels, and that the state stays well-formed.
close_run-IsValid :
    (stack : List ℕ) (spaces : ℕ) (l : Lexer)
    → l.layout.indent_stack ≡ stack
    → IsValid l
    → IsValid (close_run stack spaces l)
unfolding close_run
close_run-IsValid [] spaces l e v = v
close_run-IsValid (top ∷ []) spaces l e v = v
close_run-IsValid (top ∷ below ∷ stack) spaces l e v =
    let (w, f) = close_indent-IsValid top below stack l e v in
    ground (arith, close_run-IsValid (below ∷ stack) spaces (close_indent l) f w)

error-IsValid : (m : Message) (l : Lexer) → IsValid l → IsValid (error m l)
error-IsValid m l v = IsTame-IsValid (error-Scans m l).tame v

close_indents-IsValid : (spaces : ℕ) (l : Lexer) → IsValid l → IsValid (close_indents spaces l)
unfolding close_indents
close_indents-IsValid spaces l v =
    let l1 = close_run l.layout.indent_stack spaces l in
    let v1 = close_run-IsValid l.layout.indent_stack spaces l refl v in
    ground (arith, v1, error-IsValid (dedent_mismatch spaces (reverse l.layout.indent_stack)) l1 v1)

change_indent-IsValid :
    (spaces : ℕ) (l : Lexer) → spaces % 4 ≡ 0 → IsValid l → IsValid (change_indent spaces l)
unfolding change_indent
change_indent-IsValid spaces l m v = elim (Bool-cases (ltb (top_indent l.layout) spaces)) [
  | inl deeper ↦ rw deeper (
      ground (
        arith,
        error-IsValid (jumped (top_indent l.layout) spaces) l v,
        open_indent-IsValid spaces l (ground arith) m v,
      ))
  | inr not_deeper ↦ rw not_deeper (ground (arith, close_indents-IsValid spaces l v))
]

indent_line-IsValid :
    (spaces tabs : ℕ) (l : Lexer) → IsValid l → IsValid (indent_line spaces tabs l)
unfolding indent_line
indent_line-IsValid spaces tabs l v = elim (Bool-cases (spaces % 4 == 0)) [
  | inl even ↦ rw even (
      ground (
        arith,
        error-IsValid tabs_not_allowed l v,
        change_indent-IsValid spaces l ((==_iff _ _).0 even) v,
      ))
  | inr odd ↦ rw odd (
      ground (
        arith,
        error-IsValid tabs_not_allowed l v,
        error-IsValid (not_multiple_of_four spaces (nearest_indent spaces)) l v,
      ))
]

-- Indentation never breaks the agreement of stacks and tokens, whatever it reports.
pub handle_indentation-IsValid : (l : Lexer) → IsValid l → IsValid (handle_indentation l)
unfolding handle_indentation
handle_indentation-IsValid l v =
    let r = count_blanks l.cursor.rest l.cursor 0 0 in
    indent_line-IsValid r.1 r.2 (record l { cursor = r.0 }) (IsTame-IsValid (IsTame-cursor r.0 l) v)

-- The dedents at the end of the file close every level.
pub close_all-IsValid :
    (stack : List ℕ) (l : Lexer)
    → l.layout.indent_stack ≡ stack
    → IsValid l
    → IsValid (close_all stack l) × ((close_all stack l).layout.indent_stack ≡ 0 ∷ [])
unfolding close_all add_token add_token_with_lexeme type_index
close_all-IsValid [] l e v = absurd (rw e at v.levels)
close_all-IsValid (top ∷ []) l e v = (v, ground arith)
close_all-IsValid (top ∷ below ∷ stack) l e v =
    let d = depth_of-add token_dedent (encode l.cursor.lexeme) l in
    close_all-IsValid (below ∷ stack)
      (on_layout (λ y. record y { indent_stack = below ∷ stack }) (add_token token_dedent l)) refl
      (ground (arith, d))
