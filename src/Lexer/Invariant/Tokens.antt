-- ===== src/Lexer/Invariant/Tokens.antt =====
-- A whole round of `ScanTokens`: the state stays well-formed, and the fuel that it needs falls.
use kukicha.Prelude.{
  ℕ, ◌-◌, List, [], ◌∷◌, ◌≡◌, refl, ap, sym, arith, length, if◌then◌else◌, ◌==◌, Bool-cases, ==_iff,
  inl, inr,
}
use kukicha.Token.{
  TokenType, type_index, token_semicolon, token_lparen, token_rparen, token_lbracket,
  token_rbracket,
}
use kukicha.Lexer.Runes.{is_blank}
use kukicha.Lexer.Cursor.{Cursor, advance, matches, restart}
use kukicha.Lexer.State.{Lexer, InterpState, on_layout, on_cursor}
use kukicha.Lexer.Nesting.{IsPlain}
use kukicha.Lexer.Shrinking.{advance-Reads, skip_while-Reads, Scans, Scans-trans, cursor-Scans}
use kukicha.Lexer.Shrinking.Literals.{add_token-Scans, scan_comment-Scans, scan_raw_string-Scans}
use kukicha.Lexer.Shrinking.Injection.{
  Restarts, scan_string-Progress, scan_single_quote_string-Progress, scan_string_continuation-Scans,
}
use kukicha.Lexer.Scan.{rune_cases, scan_operator, scan_rune, scan_newline, weight}
use kukicha.Lexer.Braces.{close_brace}
use kukicha.Lexer.Strings.{scan_string, scan_single_quote_string}
use kukicha.Lexer.Invariant.{IsTame-IsValid}
use kukicha.Lexer.Invariant.Steps.{
  Moves, Scans-Moves, switch_rule, scan_operator-Scans, scan_newline-Scans, open_brace-Moves,
  pop_brace-Moves,
}

close_brace-Moves : (k : Cursor) (l : Lexer) (ss : List InterpState) → Moves k l (close_brace ss l)
unfolding close_brace
close_brace-Moves k l [] = pop_brace-Moves k l l.layout.brace_stack refl
close_brace-Moves k l (s ∷ ss) = elim (Bool-cases (s.interp_depth == 0)) [
  | inl last ↦ rw last (
      let l1 = on_cursor restart (on_layout (λ y. record y { interp_stack = ss }) l) in
      Scans-Moves k
        (Scans-trans {m = l1} (ground arith) (scan_string_continuation-Scans s.quote l1)))
  | inr inner ↦ rw inner (
      let l1 =
        on_layout
          (λ y. record y { interp_stack = record s { interp_depth = s.interp_depth - 1 } ∷ ss })
          l in
      let p = pop_brace-Moves k l1 l.layout.brace_stack refl in
      record { keeps = λ v. p.keeps (ground (arith, v)); goes = p.goes })
]

carriage_return-Moves :
    (k : Cursor) (l : Lexer)
    → Moves k l (scan_newline (if matches 10 l.cursor then on_cursor advance l else l))
carriage_return-Moves k l = elim (Bool-cases (matches 10 l.cursor)) [
  | inl two ↦ rw two (
      Scans-Moves k (
        Scans-trans (cursor-Scans l (advance-Reads l.cursor))
          (scan_newline-Scans (on_cursor advance l))))
  | inr one ↦ rw one (Scans-Moves k (scan_newline-Scans l))
]

restart_earlier :
    (k : Cursor) (c : ℕ) (k1 m : Cursor) → k.rest ≡ c ∷ k1.rest → Restarts k1 m → Restarts k m
restart_earlier k c k1 m e r = omega (arith, ap weight e, ap (length {0}) e)

string-Moves :
    (k : Cursor) (c : ℕ) (l : Lexer) → k.rest ≡ c ∷ l.cursor.rest → Moves k l (scan_string l)
string-Moves k c l e =
    let p = scan_string-Progress l in
    record {
      keeps = IsTame-IsValid p.0;
      goes = elim p.1 [ inl r ↦ inl r | inr r ↦ inr (restart_earlier k c l.cursor _ e r) ];
    }

single-Moves :
    (k : Cursor) (l : Lexer)
    → k.rest ≡ b'\'' ∷ l.cursor.rest
    → Moves k l (scan_single_quote_string l)
single-Moves k l e =
    let p = scan_single_quote_string-Progress k l e in
    record { keeps = IsTame-IsValid p.0; goes = inr p.1 }

-- Every case of the switch, where `k` stands in front of the rune `c`.
pub scan_rune-Moves :
    (k : Cursor) (c : ℕ) (l : Lexer) → k.rest ≡ c ∷ l.cursor.rest → Moves k l (scan_rune c l)
unfolding scan_rune type_index
scan_rune-Moves k c l e =
    let plain = λ (t : TokenType) (l1 : Lexer) (p : IsPlain t) (s : Scans l l1).
      Scans-Moves k (Scans-trans s (add_token-Scans t l1 p)) in
    switch_rule (Moves k l) (rune_cases c l) (scan_operator c l)
      (
        (λ _. Scans-Moves k (cursor-Scans l (skip_while-Reads is_blank l.cursor))),
        (
          (λ _. Scans-Moves k (scan_newline-Scans l)),
          (
            (λ _. carriage_return-Moves k l),
            (
              (λ _. Scans-Moves k (scan_comment-Scans l)),
              (
                (λ _. Scans-Moves k (add_token-Scans token_semicolon l (refl, refl))),
                (
                  (λ _. string-Moves k c l e),
                  (
                    (λ h. single-Moves k l (rw (sym ((==_iff _ _).0 h)) e)),
                    (
                      (λ _. Scans-Moves k (scan_raw_string-Scans l)),
                      (
                        (λ _. plain token_lparen _ (refl, refl) (ground arith)),
                        (
                          (λ _. plain token_rparen _ (refl, refl) (ground arith)),
                          (
                            (λ _. plain token_lbracket _ (refl, refl) (ground arith)),
                            (
                              (λ _. plain token_rbracket _ (refl, refl) (ground arith)),
                              (
                                (λ _. open_brace-Moves k l),
                                ((λ _. close_brace-Moves k l l.layout.interp_stack), tt),
                              ),
                            ),
                          ),
                        ),
                      ),
                    ),
                  ),
                ),
              ),
            ),
          ),
        ),
      )
      (Scans-Moves k (scan_operator-Scans c l))
