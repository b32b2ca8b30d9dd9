-- ===== src/Lexer/Literals/Longest.antt =====
-- Identifiers and keywords are read to their end (internal/lexer/lexer.go, `scanIdentifier`).
use kukicha.Prelude.{
  ℕ, ◌+◌, ◌-◌, ◌<◌, Bool, true, not, List, [], ◌∷◌, ◌++◌, ◌≡◌, refl, sym, ap, ◌∙◌, arith, length,
  all, Bool-cases, inl, inr, append_assoc, append-nil,
}
use kukicha.Token.Keywords.{lookup_keyword}
use kukicha.Lexer.Runes.{is_alpha, is_digit, is_alpha_numeric}
use kukicha.Lexer.Utf8.{rune_count}
use kukicha.Lexer.Utf8.Count.{IsAscii, encode-ascii, rune_count-encode}
use kukicha.Lexer.Cursor.{Cursor, skip_run, skip_while, take_rune}
use kukicha.Lexer.State.{Lexer, add_token_with_lexeme}
use kukicha.Lexer.Literals.{scan_identifier}

abbrev stops : (ℕ → Bool) → List ℕ → Bool
stops p [] = true
stops p (c ∷ cs) = not (p c)

-- From `k` to `m` the longest run of runes with `p` was read.
record IsRun (p : ℕ → Bool) (k m : Cursor) : Type 0 where
  taken : List ℕ
  split : k.rest ≡ taken ++ m.rest
  lexeme : m.lexeme ≡ k.lexeme ++ taken
  column : m.column ≡ k.column + length taken
  line : m.line ≡ k.line
  holds : all p taken ≡ true
  ends : stops p m.rest ≡ true

skip_run-IsRun :
    (p : ℕ → Bool) (cs : List ℕ) (k : Cursor) → k.rest ≡ cs → IsRun p k (skip_run p cs k)
unfolding skip_run
skip_run-IsRun p [] k e = record {
  taken = [];
  split = refl;
  lexeme = sym (append-nil _);
  column = omega arith;
  line = refl;
  holds = refl;
  ends = rw e refl;
}
skip_run-IsRun p (c ∷ cs) k e = elim (Bool-cases (p c)) [
  | inl h ↦ rw h (
      let r = skip_run-IsRun p cs (take_rune c cs k) refl in
      record {
        taken = c ∷ r.taken;
        split = e ∙ ap (◌∷◌ c) r.split;
        lexeme = r.lexeme ∙ append_assoc k.lexeme (c ∷ []) r.taken;
        column = omega (arith, r.column);
        line = r.line;
        holds = rw h r.holds;
        ends = r.ends;
      })
  | inr h ↦ rw h (record {
    taken = [];
    split = refl;
    lexeme = sym (append-nil _);
    column = omega arith;
    line = refl;
    holds = refl;
    ends = rw e (rw h refl);
  })
]

is_alpha_numeric-ascii : (c : ℕ) → is_alpha_numeric c ≡ true → c < 128
unfolding is_alpha_numeric is_alpha is_digit
is_alpha_numeric-ascii c h = ground arith

IsAscii-word : (w : List ℕ) → all is_alpha_numeric w ≡ true → IsAscii w
IsAscii-word [] h = tt
IsAscii-word (c ∷ cs) h = elim (Bool-cases (is_alpha_numeric c)) [
  | inl a ↦ (is_alpha_numeric-ascii c a, IsAscii-word cs (rw a at h))
  | inr a ↦ absurd (ground (arith, rw a at h))
]

-- The longest word ahead was read, and became one token.
pub record IsIdentifier (c : ℕ) (l m : Lexer) : Type 0 where
  pub word : List ℕ
  pub split : l.cursor.rest ≡ word ++ m.cursor.rest
  pub holds : all is_alpha_numeric word ≡ true
  pub ends : stops is_alpha_numeric m.cursor.rest ≡ true
  pub token :
      m.tokens
      ≡ l.tokens
        ++ record {
          type = lookup_keyword (c ∷ word);
          lexeme = c ∷ word;
          line = l.cursor.line;
          column = l.cursor.column - 1;
          file = l.file;
        }
          ∷ []

-- Behind a first letter `scanIdentifier` reads all letters and digits that follow and stops at the
-- first rune that is neither. It emits one token: its text is the letter and what was read, its
-- type is the keyword's or IDENTIFIER, and its column is that of the letter.
pub scan_identifier-IsIdentifier :
    (c : ℕ) (l : Lexer)
    → l.cursor.lexeme ≡ c ∷ []
    → is_alpha c ≡ true
    → IsIdentifier c l (scan_identifier l)
unfolding scan_identifier skip_while add_token_with_lexeme
scan_identifier-IsIdentifier c l e a =
    let r = skip_run-IsRun is_alpha_numeric l.cursor.rest l.cursor refl in
    let ascii : IsAscii (c ∷ r.taken) = (
      is_alpha_numeric-ascii c (unfold is_alpha_numeric in rw a refl),
      IsAscii-word r.taken r.holds,
    ) in
    let text : (skip_run is_alpha_numeric l.cursor.rest l.cursor).lexeme ≡ c ∷ r.taken =
      r.lexeme ∙ rw e refl in
    let place : (skip_run is_alpha_numeric l.cursor.rest l.cursor).column - rune_count (c ∷ r.taken)
        ≡ l.cursor.column - 1 =
      omega (
        arith,
        r.column,
        ap rune_count (encode-ascii (c ∷ r.taken) ascii),
        rune_count-encode (c ∷ r.taken) ascii,
      ) in
    record {
      word = r.taken;
      split = r.split;
      holds = r.holds;
      ends = r.ends;
      token = rw text (rw (encode-ascii (c ∷ r.taken) ascii) (rw r.line (rw place refl)));
    }
