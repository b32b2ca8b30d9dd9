-- ===== src/Lexer/Shrinking/Source.antt =====
-- internal/lexer/lexer.go: the runes of the token and of what is left, as the operations read on.
use kukicha.Prelude.{
  ℕ, zero, suc, ◌-◌, ◌+◌, ◌*◌, List, ◌∷◌, [], ◌++◌, Option, none, some, ◌≡◌, refl, append_assoc,
  arith, Bytes,
}
use kukicha.Token.{TokenType}
use kukicha.Lexer.Cursor.{Cursor, peek, advance}
use kukicha.Lexer.State.{Lexer, Message, error, add_token_with_lexeme, on_cursor}
use kukicha.Lexer.Escapes.{
  octal_digits, escape_sep, escape_hex, escape_octal, escape_of, scan_string_escape, simple_escape,
}

-- The source from the start of the token on.
abbrev pub source : Cursor → List ℕ
source k = k.lexeme ++ k.rest

pub source-advance : (k : Cursor) → source (advance k) ≡ source k
unfolding advance
source-advance k = over k.rest refl
  where
    over : (r : List ℕ) → k.rest ≡ r → source (advance k) ≡ source k
    over [] e = rw e refl
    over (c ∷ cs) e = rw e (append_assoc k.lexeme (c ∷ []) cs)

pub source-error : (m : Message) (l : Lexer) → source (error m l).cursor ≡ source l.cursor
unfolding error
source-error m l = refl

pub source-add_token_with_lexeme :
    (t : TokenType) (v : Bytes) (l : Lexer)
    → source (add_token_with_lexeme t v l).cursor ≡ source l.cursor
unfolding add_token_with_lexeme
source-add_token_with_lexeme t v l = refl

source-octal_digits : (n oct : ℕ) (k : Cursor) → source (octal_digits n oct k).0 ≡ source k
unfolding octal_digits
source-octal_digits zero oct k = refl
source-octal_digits (suc n) oct k =
    ground (arith, source-advance k, source-octal_digits n (oct * 8 + (peek k - b'0')) (advance k))

source-escape_sep : (l : Lexer) (v : Bytes) → source (escape_sep l v).0.cursor ≡ source l.cursor
unfolding escape_sep
source-escape_sep l v = ground (arith, source-advance l.cursor, source-advance (advance l.cursor))

source-escape_hex : (l : Lexer) (v : Bytes) → source (escape_hex l v).0.cursor ≡ source l.cursor
unfolding escape_hex error
source-escape_hex l v = ground (arith, source-advance l.cursor, source-advance (advance l.cursor))

source-escape_octal :
    (c : ℕ) (l : Lexer) (v : Bytes) → source (escape_octal c l v).0.cursor ≡ source l.cursor
unfolding escape_octal error
source-escape_octal c l v = ground (arith, source-octal_digits 2 (c - b'0') l.cursor)

source-escape_of :
    (o : Option ℕ) (c : ℕ) (l : Lexer) (v : Bytes)
    → source (escape_of o c l v).0.cursor ≡ source l.cursor
unfolding escape_of
source-escape_of (some r) c l v = refl
source-escape_of none c l v =
    ground (arith, source-escape_sep l v, source-escape_hex l v, source-escape_octal c l v)

pub source-scan_string_escape :
    (l : Lexer) (v : Bytes) → source (scan_string_escape l v).0.cursor ≡ source l.cursor
unfolding scan_string_escape
source-scan_string_escape l v =
    let c = peek (advance l.cursor) in
    ground (
      arith,
      source-advance l.cursor,
      source-advance (advance l.cursor),
      source-escape_of (simple_escape c) c (on_cursor (λ k. advance (advance k)) l) v,
    )
