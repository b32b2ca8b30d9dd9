-- ===== src/Lexer/Shrinking/Literals.antt =====
-- Numbers, identifiers, comments and raw strings are read on and open no block.
use kukicha.Prelude.{
  ℕ, Bool, true, not, ◌||◌, List, [], ◌∷◌, ◌++◌, ◌≡◌, refl, ap, arith, Bytes, Bool-cases, inl, inr,
  length, codes, has_prefix, ◌==◌, ◌&&◌, all,
}
use mathlib.Core.Option.{get_or}
use kukicha.Lexer.Scan.{weight}
use kukicha.Lexer.Shrinking.Injection.{take_raw-rest}
use kukicha.Token.{
  token_indent, token_dedent, token_identifier, TokenType, type_index, is_type, token_integer,
  token_float, token_comment, token_directive, token_string_raw,
}
use kukicha.Token.Keywords.{lookup_keyword, keywords, find_keyword}
use kukicha.Lexer.Utf8.{encode, encode_rune}
use kukicha.Lexer.Runes.{is_digit, is_hex_digit, is_octal_digit, is_alpha_numeric}
use kukicha.Lexer.Cursor.{peek, peek_next, advance, skip_while, take_rune}
use kukicha.Lexer.State.{
  Lexer, Message, error, add_token, on_cursor, no_hex_digits, no_octal_digits, no_binary_digits,
}
use kukicha.Lexer.Nesting.{IsPlain}
use kukicha.Lexer.Strings.{raw_run, scan_raw_string, take_raw}
use kukicha.Lexer.Literals.{
  scan_radix, scan_decimal, scan_number, scan_identifier, scan_comment, is_binary_digit,
}
use kukicha.Lexer.Shrinking.{
  Reads-trans, advance-Reads, skip_while-Reads, Scans, Scans-trans, error-Scans, cursor-Scans,
  add_token_with_lexeme-Scans,
}

pub add_token-Scans : (t : TokenType) (l : Lexer) → IsPlain t → Scans l (add_token t l)
unfolding add_token
add_token-Scans t l p = add_token_with_lexeme-Scans t (encode l.cursor.lexeme) l p

literal-IsPlain :
    IsPlain token_integer
    × IsPlain token_float
    × IsPlain token_comment
    × IsPlain token_directive
    × IsPlain token_string_raw
unfolding type_index
literal-IsPlain = ((refl, refl), (refl, refl), (refl, refl), (refl, refl), (refl, refl))

skip-Scans : (p : ℕ → Bool) (l : Lexer) → Scans l (on_cursor (skip_while p) l)
skip-Scans p l = cursor-Scans l (skip_while-Reads p l.cursor)

scan_radix-Scans : (p : ℕ → Bool) (m : Message) (l : Lexer) → Scans l (scan_radix p m l)
unfolding scan_radix
scan_radix-Scans p m l =
    let l1 = on_cursor advance l in
    let s1 = cursor-Scans l (advance-Reads l.cursor) in
    let digits = λ (l2 : Lexer).
      Scans-trans (skip-Scans (λ c. p c || c == b'_') l2)
        (add_token-Scans token_integer _ literal-IsPlain.0) in
    elim (Bool-cases (p (peek l1.cursor))) [
      | inl h ↦ rw h (Scans-trans s1 (digits l1))
      | inr h ↦ rw h (Scans-trans s1 (Scans-trans (error-Scans m l1) (digits (error m l1))))
    ]

scan_decimal-Scans : (l : Lexer) → Scans l (scan_decimal l)
unfolding scan_decimal
scan_decimal-Scans l =
    let p = λ (c : ℕ). is_digit c || c == b'_' in
    let l1 = on_cursor (skip_while p) l in
    let k2 = skip_while p (advance l1.cursor) in
    let read = Reads-trans (advance-Reads l1.cursor) (skip_while-Reads p (advance l1.cursor)) in
    elim (Bool-cases (peek l1.cursor == b'.' && is_digit (peek_next l1.cursor))) [
      | inl h ↦ rw h (
          Scans-trans (skip-Scans p l) (
            Scans-trans (cursor-Scans l1 read)
              (add_token-Scans token_float (record l1 { cursor = k2 }) literal-IsPlain.1)))
      | inr h ↦
          rw h (Scans-trans (skip-Scans p l) (add_token-Scans token_integer l1 literal-IsPlain.0))
    ]

pub scan_number-Scans : (l : Lexer) → Scans l (scan_number l)
unfolding scan_number
scan_number-Scans l = ground (
  arith,
  scan_radix-Scans is_hex_digit no_hex_digits l,
  scan_radix-Scans is_octal_digit no_octal_digits l,
  scan_radix-Scans is_binary_digit no_binary_digits l,
  scan_decimal-Scans l,
)

pub scan_comment-Scans : (l : Lexer) → Scans l (scan_comment l)
unfolding scan_comment
scan_comment-Scans l =
    let l1 = on_cursor (skip_while (λ c. not (c == 10))) l in
    let s = skip-Scans (λ c. not (c == 10)) l in
    elim (Bool-cases (has_prefix (encode l1.cursor.lexeme) (codes "# kuki:"))) [
      | inl h ↦ rw h (Scans-trans s (add_token-Scans token_directive l1 literal-IsPlain.3))
      | inr h ↦ rw h (Scans-trans s (add_token-Scans token_comment l1 literal-IsPlain.2))
    ]

is_plain : TokenType → Bool
is_plain t = not (is_type t token_indent || is_type t token_dedent)

is_plain-IsPlain : (t : TokenType) → is_plain t ≡ true → IsPlain t
unfolding is_plain
is_plain-IsPlain t h = ground arith

find_keyword-is_plain :
    (ks : List (Bytes × TokenType)) (w : Bytes)
    → all (λ e. is_plain e.1) ks ≡ true
    → is_plain (get_or (find_keyword ks w) token_identifier) ≡ true
unfolding find_keyword
find_keyword-is_plain [] w h = unfold is_plain type_index in refl
find_keyword-is_plain ((k, t) ∷ ks) w h = ground (arith, find_keyword-is_plain ks w)

keywords-is_plain : all (λ e. is_plain e.1) keywords ≡ true
unfolding is_plain type_index
keywords-is_plain = refl

-- No keyword is a layout token.
lookup_keyword-IsPlain : (w : Bytes) → IsPlain (lookup_keyword w)
unfolding lookup_keyword
lookup_keyword-IsPlain w = is_plain-IsPlain _ (find_keyword-is_plain keywords w keywords-is_plain)

pub scan_identifier-Scans : (l : Lexer) → Scans l (scan_identifier l)
unfolding scan_identifier
scan_identifier-Scans l =
    let l1 = on_cursor (skip_while is_alpha_numeric) l in
    let text = encode l1.cursor.lexeme in
    let s =
      Scans-trans (skip-Scans is_alpha_numeric l)
        (add_token_with_lexeme-Scans (lookup_keyword text) text l1 (lookup_keyword-IsPlain text)) in
    ground (arith, s)

taken-Scans :
    (l : Lexer) (c : ℕ) (cs : List ℕ)
    → l.cursor.rest ≡ c ∷ cs
    → Scans l (on_cursor (take_rune c cs) l)
taken-Scans l c cs e = cursor-Scans l (omega (arith, ap weight e, ap (length {0}) e))

raw_run-Scans :
    (cs : List ℕ) (l : Lexer) (start : ℕ) (v : Bytes)
    → l.cursor.rest ≡ cs
    → Scans l (raw_run cs l start v)
unfolding raw_run
raw_run-Scans [] l start v e = Scans-trans (cursor-Scans l (omega arith)) (error-Scans _ _)
raw_run-Scans (c ∷ cs) l start v e = elim (Bool-cases (c == b'`')) [
  | inl h ↦ rw h (
      Scans-trans (taken-Scans l c cs e)
        (add_token_with_lexeme-Scans token_string_raw v _ literal-IsPlain.4))
  | inr h ↦ rw h (elim (Bool-cases (c == 0)) [
    | inl z ↦ rw z (Scans-trans (taken-Scans l c cs e) (error-Scans _ _))
    | inr z ↦ rw z (
        Scans-trans (cursor-Scans l (ground (arith, ap weight e, ap (length {0}) e))) (
          raw_run-Scans cs (on_cursor (take_raw c cs) l) start (v ++ encode_rune c)
            (take_raw-rest c cs l.cursor)))
  ])
]

pub scan_raw_string-Scans : (l : Lexer) → Scans l (scan_raw_string l)
unfolding scan_raw_string
scan_raw_string-Scans l = raw_run-Scans l.cursor.rest l l.cursor.line [] refl
