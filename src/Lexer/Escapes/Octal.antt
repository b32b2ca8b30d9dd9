-- ===== src/Lexer/Escapes/Octal.antt =====
-- The value of an octal escape.
use kukicha.Prelude.{
  ℕ, ◌+◌, ◌-◌, ◌*◌, ◌<◌, ◌≤◌, true, List, [], ◌∷◌, ◌++◌, ◌≡◌, refl, ◌⊎◌, arith, Bytes, length,
  length-append, ltb, Bool-cases, inl, inr,
}
use kukicha.Lexer.Runes.{is_octal_digit}
use kukicha.Lexer.Cursor.{Cursor, advance}
use kukicha.Lexer.State.{Lexer, error}
use kukicha.Lexer.Escapes.{octal_digits, escape_octal, Scanned}

-- What an octal escape with the value `n` does to the content and the errors.
abbrev pub Writes : ℕ → Lexer → Bytes → Scanned → Type 0
Writes n l v after =
    ((n < 256) × (after.1 ≡ v ++ n ∷ []) × (after.0.errors ≡ l.errors))
    ⊎ ((256 ≤ n) × (after.1 ≡ v) × (length after.0.errors ≡ length l.errors + 1))

octal_digits-two :
    (d e oct : ℕ) (rest : List ℕ) (k : Cursor)
    → is_octal_digit d ≡ true
    → is_octal_digit e ≡ true
    → k.rest ≡ d ∷ e ∷ rest
    → octal_digits 2 oct k ≡ (advance (advance k), (oct * 8 + (d - b'0')) * 8 + (e - b'0'))
unfolding octal_digits advance
octal_digits-two d e oct rest k p q h = ground (arith, p, q, h)

-- Three octal digits behind a backslash write the one byte that they stand for, or, where it is
-- more than 255, nothing, and one error is recorded.
pub escape_octal-Writes :
    (c d e : ℕ) (rest : List ℕ) (l : Lexer) (v : Bytes)
    → is_octal_digit c ≡ true
    → is_octal_digit d ≡ true
    → is_octal_digit e ≡ true
    → l.cursor.rest ≡ d ∷ e ∷ rest
    → Writes (((c - b'0') * 8 + (d - b'0')) * 8 + (e - b'0')) l v (escape_octal c l v)
unfolding escape_octal error
escape_octal-Writes c d e rest l v o p q h =
    let n = ((c - b'0') * 8 + (d - b'0')) * 8 + (e - b'0') in
    rw o (
      rw (octal_digits-two d e (c - b'0') rest l.cursor p q h) (elim (Bool-cases (ltb 255 n)) [
        | inl big ↦ rw big (inr (ground (arith, big), refl, length-append l.errors _))
        | inr fits ↦ rw fits (inl (ground (arith, fits), refl, refl))
      ]))
