-- ===== src/Lexer/Indentation/Levels.antt =====
-- Behind a line whose indentation is accepted the current level is that of the line.
use kukicha.Prelude.{
  ℕ, ◌+◌, ◌<◌, true, false, not, ◌&&◌, List, [], ◌∷◌, ◌≡◌, ◌≢◌, refl, sym, ap, ◌∙◌, arith, length,
  length-append, ltb, ◌==◌, Bool-cases, inl, inr,
}
use kukicha.Lexer.State.{
  Lexer, Message, error, add_token, add_token_with_lexeme, in_paren_continuation,
}
use kukicha.Lexer.Indentation.{
  top_indent, open_indent, close_indent, close_run, close_indents, change_indent,
}

error-ne : (m : Message) (l : Lexer) → (error m l).errors ≢ l.errors
unfolding error
error-ne m l e = omega (arith, length-append l.errors _, ap (length {0}) e)

-- An accepted change of the indentation.
pub record IsAccepted (spaces : ℕ) (l m : Lexer) : Type 0 where
  pub settles : top_indent m.layout ≡ spaces
  pub by_four :
      top_indent l.layout < spaces
      → l.layout.pending_closure_block ≡ false
      → spaces ≡ top_indent l.layout + 4

close_run-errors : (stack : List ℕ) (n : ℕ) (l : Lexer) → (close_run stack n l).errors ≡ l.errors
unfolding close_run close_indent add_token add_token_with_lexeme
close_run-errors [] n l = refl
close_run-errors (a ∷ []) n l = refl
close_run-errors (a ∷ b ∷ stack) n l =
    ground (arith, close_run-errors (b ∷ stack) n (close_indent l))

open_indent-top : (spaces : ℕ) (l : Lexer) → top_indent (open_indent spaces l).layout ≡ spaces
unfolding open_indent add_token add_token_with_lexeme
open_indent-top spaces l = elim (Bool-cases l.layout.pending_closure_block) [
  | inl opens ↦ rw opens refl
  | inr plain ↦ rw plain refl
]

close_indents-top :
    (spaces : ℕ) (l : Lexer)
    → (close_indents spaces l).errors ≡ l.errors
    → in_paren_continuation (close_indents spaces l).layout ≡ false
    → top_indent (close_indents spaces l).layout ≡ spaces
unfolding close_indents
close_indents-top spaces l =
    let l1 = close_run l.layout.indent_stack spaces l in
    let same = close_run-errors l.layout.indent_stack spaces l in
    elim (Bool-cases (in_paren_continuation l1.layout)) [
      | inl inside ↦ λ e p. absurd (ground (arith, inside, rw inside at p))
      | inr outside ↦ elim (Bool-cases (top_indent l1.layout == spaces)) [
        | inl at ↦ λ e p. rw outside (rw at (ground (arith, at)))
        | inr off ↦
            λ e p. let e1 = rw off at rw outside at e in absurd (error-ne _ l1 (e1 ∙ sym same))
      ]
    ]

change_indent-deeper :
    (spaces : ℕ) (l : Lexer)
    → ltb (top_indent l.layout) spaces ≡ true
    → (change_indent spaces l).errors ≡ l.errors
    → IsAccepted spaces l (change_indent spaces l)
unfolding change_indent
change_indent-deeper spaces l deeper =
    elim (Bool-cases
      (not l.layout.pending_closure_block && not (spaces == top_indent l.layout + 4))) [
        | inl jumps ↦ λ e. absurd (error-ne _ l (rw jumps at rw deeper at e))
        | inr fits ↦ λ e. rw deeper (
            rw fits (record {
              settles = open_indent-top spaces l;
              by_four = λ below plain. ground (arith, fits, plain);
            }))
      ]

-- If the comparison with the current level reports nothing and the line does not go on inside a
-- call, then the level is that of the line, and a deeper line, unless it opens the body of a
-- closure, is deeper by four.
pub change_indent-IsAccepted :
    (spaces : ℕ) (l : Lexer)
    → (change_indent spaces l).errors ≡ l.errors
    → in_paren_continuation (change_indent spaces l).layout ≡ false
    → IsAccepted spaces l (change_indent spaces l)
unfolding change_indent
change_indent-IsAccepted spaces l = elim (Bool-cases (ltb (top_indent l.layout) spaces)) [
  | inl deeper ↦ λ e p. change_indent-deeper spaces l deeper e
  | inr not_deeper ↦ elim (Bool-cases (ltb spaces (top_indent l.layout))) [
    | inl lower ↦ λ e p. rw not_deeper (
        rw lower (record {
          settles =
              close_indents-top spaces l (rw lower at rw not_deeper at e)
                (rw lower at rw not_deeper at p);
          by_four = λ below plain. absurd (ground (arith, not_deeper, below));
        }))
    | inr same ↦ λ e p. rw not_deeper (
        rw same (record {
          settles = ground (arith, not_deeper, same);
          by_four = λ below plain. absurd (ground (arith, not_deeper, below));
        }))
  ]
]
