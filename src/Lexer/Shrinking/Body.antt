-- ===== src/Lexer/Shrinking/Body.antt =====
-- internal/lexer/lexer.go, `scanStringBody`: the fuel of its loop, and what a run leaves.
use kukicha.Prelude.{
  ℕ, zero, suc, ◌<◌, Option, [], some, ◌≡◌, refl, ◌∙◌, arith, Bytes, Bool-cases, inl, inr, length,
}
use kukicha.Token.{TokenType}
use kukicha.Lexer.Cursor.{is_at_end, advance}
use kukicha.Lexer.State.{Lexer, on_cursor, unterminated_string, nul_in_string}
use kukicha.Lexer.Nesting.{IsPlain}
use kukicha.Lexer.Strings.{Round, again, done, body_round, run_body, scan_string_body}
use kukicha.Lexer.Shrinking.{
  ReadsOn, advance-ReadsOn, advance-Reads, Scans, Scans-trans, error-Scans,
  add_token_with_lexeme-Scans,
}
use kukicha.Lexer.Shrinking.Source.{
  source, source-advance, source-error, source-add_token_with_lexeme, source-scan_string_escape,
}
use kukicha.Lexer.Shrinking.Escapes.{scan_string_escape-Scans, scan_string_escape-ReadsOn}

-- No round changes the source, and one that goes on has read something.
abbrev RoundScans : Lexer → Round → Type 0
RoundScans l (again m v) =
    Scans l m × ReadsOn l.cursor m.cursor × (source m.cursor ≡ source l.cursor)
RoundScans l (done m) = Scans l m × (source m.cursor ≡ source l.cursor)

module _ (interp end : TokenType) (p : IsPlain interp) (e : IsPlain end) where
  body_round-Scans : (q : ℕ) (l : Lexer) (v : Bytes) → RoundScans l (body_round interp end q l v)
  unfolding body_round
  body_round-Scans q l v = elim (Bool-cases (is_at_end l.cursor)) [
    | inl over ↦ rw over (error-Scans unterminated_string l, source-error unterminated_string l)
    | inr more ↦
        let l1 = on_cursor advance l in
        ground (
          arith,
          error-Scans unterminated_string l,
          error-Scans nul_in_string l1,
          advance-Reads l.cursor,
          advance-ReadsOn l.cursor more,
          add_token_with_lexeme-Scans end v l1 e,
          add_token_with_lexeme-Scans interp v l1 p,
          scan_string_escape-Scans l v,
          source-advance l.cursor,
          source-error unterminated_string l,
          source-error nul_in_string l1,
          source-add_token_with_lexeme end v l1,
          source-add_token_with_lexeme interp v l1,
          source-scan_string_escape l v,
          scan_string_escape-ReadsOn l v more,
        )
  ]

  -- What the rest of the loop does from the state behind a round.
  abbrev Finishes : (Lexer → Bytes → Option Lexer) → ℕ → Type 0
  Finishes go f =
      (m : Lexer) (v : Bytes)
      → length m.cursor.rest < f
      → (n : Lexer) × (go m v ≡ some n) × Scans m n × (source n.cursor ≡ source m.cursor)

  after_round :
      (go : Lexer → Bytes → Option Lexer) (f : ℕ) (l : Lexer) (r : Round)
      → length l.cursor.rest < suc f
      → RoundScans l r
      → Finishes go f
      → (n : Lexer) × (elim r [ again m v ↦ go m v | done m ↦ some m ] ≡ some n)
        × Scans l n
        × (source n.cursor ≡ source l.cursor)
  after_round go f l (again m v) h s ih =
      let (n, e1, t, u) = ih m v (omega arith) in (n, e1, Scans-trans s.0 t, u ∙ s.2)
  after_round go f l (done m) h s ih = (m, refl, s.0, s.1)

  -- With more fuel than runes are left the loop over the body of a string ends. Where its two token
  -- types are neither INDENT nor DEDENT, the runes from the start of the token on are what they were,
  -- of which no more are left to read than before; and the indent levels, the closures, the braces
  -- and the depth of the tokens are unchanged.
  pub run_body-Scans :
      (f q : ℕ) (l : Lexer) (v : Bytes)
      → length l.cursor.rest < f
      → (n : Lexer) × (run_body f interp end q l v ≡ some n)
        × Scans l n
        × (source n.cursor ≡ source l.cursor)
  unfolding run_body
  run_body-Scans zero q l v h = absurd (omega arith)
  run_body-Scans (suc f) q l v h =
      after_round (run_body f interp end q) f l (body_round interp end q l v) h
        (body_round-Scans q l v) (run_body-Scans f q)

  pub scan_string_body-Scans : (q : ℕ) (l : Lexer) → Scans l (scan_string_body interp end q l)
  unfolding scan_string_body
  scan_string_body-Scans q l =
      let (n, e1, s, u) = run_body-Scans (suc (length l.cursor.rest)) q l [] (omega arith) in
      rw e1 s
