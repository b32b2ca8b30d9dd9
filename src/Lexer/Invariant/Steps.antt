-- ===== src/Lexer/Invariant/Steps.antt =====
-- Each case of `scanToken` keeps the state well-formed, and makes progress in the source.
use kukicha.Prelude.{
  ℕ, Bool, true, false, List, [], ◌∷◌, ◌≡◌, refl, arith, Bool-cases, inl, inr, ◌⊎◌,
}
use kukicha.Token.{
  TokenType, type_index, token_newline, token_lbrace, token_rbrace, token_indent, token_dedent,
  token_comma, token_dot, token_plus, token_plus_plus, token_minus, token_minus_minus, token_star,
  token_slash, token_percent, token_colon, token_walrus, token_assign, token_double_equals,
  token_fat_arrow, token_bang, token_not_equals, token_lt, token_lte, token_arrow_left, token_gt,
  token_gte, token_bit_or, token_or_or, token_pipe, token_bit_and, token_and_and,
  token_bit_and_assign,
}
use kukicha.Lexer.Utf8.{encode}
use kukicha.Lexer.Cursor.{Cursor, advance, matches}
use kukicha.Lexer.State.{
  Lexer, add_token, add_token_with_lexeme, error, on_layout, on_cursor, unexpected_character,
}
use kukicha.Lexer.Nesting.{depth_of-add, IsPlain}
use kukicha.Lexer.Shrinking.{Reads, advance-Reads, Scans, Scans-trans, cursor-Scans, error-Scans}
use kukicha.Lexer.Shrinking.Literals.{add_token-Scans, scan_number-Scans, scan_identifier-Scans}
use kukicha.Lexer.Shrinking.Injection.{Restarts}
use kukicha.Lexer.Scan.{
  switch, either, fat_arrow, end_line, scan_newline, scan_operator, operator_cases, see_fat_arrow,
}
use kukicha.Lexer.Braces.{open_brace, pop_brace}
use kukicha.Lexer.Invariant.{IsValid, IsTame-IsValid}

-- What the cases of a switch have in common, each under its test.
abbrev pub AllCases {ℓ} : (Lexer → Type ℓ) → List (Bool × Lexer) → Type ℓ
AllCases P [] = Unit
AllCases P ((test, l) ∷ cases) = (test ≡ true → P l) × AllCases P cases

pub switch_rule {ℓ} :
    (P : Lexer → Type ℓ) (cases : List (Bool × Lexer)) (other : Lexer)
    → AllCases P cases
    → P other
    → P (switch cases other)
switch_rule P [] other h d = d
switch_rule P ((true, l) ∷ cases) other h d = h.0 refl
switch_rule P ((false, l) ∷ cases) other h d = switch_rule P cases other h.1 d

either-Scans :
    (e : ℕ) (t : TokenType) (l other : Lexer)
    → IsPlain t
    → Scans l other
    → Scans l (either e t l other)
either-Scans e t l other p s = elim (Bool-cases (matches e l.cursor)) [
  | inl h ↦ rw h (
      Scans-trans (cursor-Scans l (advance-Reads l.cursor))
        (add_token-Scans t (on_cursor advance l) p))
  | inr h ↦ rw h s
]

fat_arrow-Scans : (l : Lexer) → Scans l (fat_arrow l)
unfolding fat_arrow type_index
fat_arrow-Scans l =
    let l1 = on_layout see_fat_arrow (on_cursor advance l) in
    ground (
      arith,
      advance-Reads l.cursor,
      add_token-Scans token_fat_arrow l1 (refl, refl),
      add_token-Scans token_assign l (refl, refl),
    )

pub scan_operator-Scans : (c : ℕ) (l : Lexer) → Scans l (scan_operator c l)
unfolding scan_operator type_index
scan_operator-Scans c l =
    let add = λ (t : TokenType) (p : IsPlain t). add_token-Scans t l p in
    let two = λ (e : ℕ) (t : TokenType) (p : IsPlain t) (other : Lexer) (s : Scans l other).
      either-Scans e t l other p s in
    switch_rule (Scans l) (operator_cases c l) (error (unexpected_character c) l)
      (
        (λ _. add token_comma (refl, refl)),
        (
          (λ _. add token_dot (refl, refl)),
          (
            (λ _. two b'+' token_plus_plus (refl, refl) _ (add token_plus (refl, refl))),
            (
              (λ _. two b'-' token_minus_minus (refl, refl) _ (add token_minus (refl, refl))),
              (
                (λ _. add token_star (refl, refl)),
                (
                  (λ _. add token_slash (refl, refl)),
                  (
                    (λ _. add token_percent (refl, refl)),
                    (
                      (λ _. two b'=' token_walrus (refl, refl) _ (add token_colon (refl, refl))),
                      (
                        (λ _. two b'=' token_double_equals (refl, refl) _ (fat_arrow-Scans l)),
                        (
                          (λ _.
                              two b'=' token_not_equals (refl, refl) _
                                (add token_bang (refl, refl))),
                          (
                            (λ _.
                                two b'-' token_arrow_left (refl, refl) _
                                  (two b'=' token_lte (refl, refl) _ (add token_lt (refl, refl)))),
                            (
                              (λ _. two b'=' token_gte (refl, refl) _ (add token_gt (refl, refl))),
                              (
                                (λ _.
                                    two b'>' token_pipe (refl, refl) _
                                      (two b'|' token_or_or (refl, refl) _
                                        (add token_bit_or (refl, refl)))),
                                (
                                  (λ _.
                                      two b'&' token_and_and (refl, refl) _
                                        (two b'=' token_bit_and_assign (refl, refl) _
                                          (add token_bit_and (refl, refl)))),
                                  (
                                    (λ _. scan_number-Scans l),
                                    ((λ _. scan_identifier-Scans l), tt),
                                  ),
                                ),
                              ),
                            ),
                          ),
                        ),
                      ),
                    ),
                  ),
                ),
              ),
            ),
          ),
        ),
      )
      (error-Scans _ l)

pub scan_newline-Scans : (l : Lexer) → Scans l (scan_newline l)
unfolding scan_newline end_line type_index
scan_newline-Scans l = ground (
  arith,
  add_token-Scans token_newline l (refl, refl),
  add_token-Scans token_newline (on_layout (λ y. record y { pending_closure_block = true }) l)
      (refl, refl),
)

-- From `l`, behind the rune that is scanned, to `m`; `k` is the position in front of that rune.
pub record Moves (k : Cursor) (l m : Lexer) : Type 0 where
  pub keeps : IsValid l → IsValid m
  pub goes : Reads l.cursor m.cursor ⊎ Restarts k m.cursor

pub Scans-Moves : (k : Cursor) {l m : Lexer} → Scans l m → Moves k l m
Scans-Moves k s = record { keeps = IsTame-IsValid s.tame; goes = inl s.reads }

pub open_brace-Moves : (k : Cursor) (l : Lexer) → Moves k l (open_brace l)
unfolding open_brace add_token add_token_with_lexeme type_index
open_brace-Moves k l =
    let y = l.layout in
    let d = depth_of-add token_indent (encode l.cursor.lexeme) l in
    let e = depth_of-add token_lbrace (encode l.cursor.lexeme) l in
    record { keeps = λ v. ground (arith, d, e, v); goes = inl (ground arith) }

pub pop_brace-Moves :
    (k : Cursor) (l : Lexer) (bs : List Bool)
    → l.layout.brace_stack ≡ bs
    → Moves k l (pop_brace bs l)
unfolding pop_brace add_token add_token_with_lexeme type_index
pop_brace-Moves k l [] p =
    let e = depth_of-add token_rbrace (encode l.cursor.lexeme) l in
    record { keeps = λ v. ground (arith, e, v); goes = inl (ground arith) }
pop_brace-Moves k l (true ∷ bs) p =
    let d = depth_of-add token_dedent (encode l.cursor.lexeme) l in
    record { keeps = λ v. ground (arith, d, v); goes = inl (ground arith) }
pop_brace-Moves k l (false ∷ bs) p =
    let e = depth_of-add token_rbrace (encode l.cursor.lexeme) l in
    record { keeps = λ v. ground (arith, e, v); goes = inl (ground arith) }
