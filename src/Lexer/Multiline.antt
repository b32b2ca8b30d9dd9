-- ===== src/Lexer/Multiline.antt =====
-- Multi-line strings (internal/lexer/lexer.go, `scanTripleQuoteString`, `scanSingleQuoteString`):
-- the content put back into the source is read as that content.
pub mod Quotes
pub mod Regular
use mathlib.Core.Option.{get_or}
use kukicha.Prelude.{
  ℕ, zero, suc, ◌+◌, ◌-◌, ◌≤◌, ◌<◌, Bool, true, false, not, ◌&&◌, ◌||◌, List, [], ◌∷◌, ◌++◌, Option,
  none, some, ◌≡◌, refl, sym, ap, ◌∙◌, arith, Bytes, length, sum_by, ◌==◌, ==_iff, if◌then◌else◌,
  Bool-cases, inl, inr, append_assoc, append-nil, length-append, is_empty,
}
use kukicha.Token.{token_string, token_string_head}
use kukicha.Lexer.Runes.{is_alpha}
use kukicha.Lexer.Utf8.{encode, encode_rune}
use kukicha.Lexer.Cursor.{Cursor, advance, peek, is_at_end}
use kukicha.Lexer.State.{Lexer, add_token_with_lexeme, on_cursor}
use kukicha.Lexer.Strings.{
  Round, again, done, body_round, run_body, scan_string_body, scan_string_from_content, splice,
  rescan,
}
use kukicha.Lexer.Escapes.{scan_string_escape, escape_of, simple_escape}
use kukicha.Lexer.Strings.Dedent.{inject, dedent_triple_quote}
use kukicha.Lexer.Strings.Dedent.Size.{dedent_triple_quote-le}

-- A backslash, an opening brace, NUL and CR have a meaning of their own in a literal.
unfoldable pub special : ℕ → ℕ
special c = if c == b'\\' || c == b'{' || c == 0 || c == 13 then 1 else 0

abbrev pub IsPlainText : List ℕ → Type 0
IsPlainText cs = sum_by special cs ≡ 0

-- From `l` a rune of content is read: the next round stands at `k` with one more rune.
abbrev Takes : Lexer → Bytes → ℕ → List ℕ → Type 0
Takes l v c left =
    (k : Cursor) × (body_round token_string_head token_string b'"' l v
      ≡ again (record l { cursor = k }) (v ++ encode_rune c))
    × (k.rest ≡ left)

take_quote :
    (l : Lexer) (v : Bytes) (left : List ℕ)
    → l.cursor.rest ≡ b'\\' ∷ b'"' ∷ left
    → Takes l v b'"' left
unfolding body_round scan_string_escape escape_of simple_escape advance
take_quote l v left e = (advance (advance l.cursor), ground (arith, e), ground (arith, e))

take_break :
    (l : Lexer) (v : Bytes) (left : List ℕ)
    → l.cursor.rest ≡ b'\\' ∷ b'n' ∷ left
    → Takes l v 10 left
unfolding body_round scan_string_escape escape_of simple_escape advance
take_break l v left e = (advance (advance l.cursor), ground (arith, e), ground (arith, e))

take_other :
    (l : Lexer) (v : Bytes) (c : ℕ) (left : List ℕ)
    → special c ≡ 0
    → (c == b'"') ≡ false
    → (c == 10) ≡ false
    → l.cursor.rest ≡ c ∷ left
    → Takes l v c left
unfolding body_round special advance
take_other l v c left s q b e = (advance l.cursor, ground (arith, e), ground (arith, e))

inject_other :
    (c : ℕ) (cs left : List ℕ)
    → special c ≡ 0
    → (c == b'"') ≡ false
    → (c == 10) ≡ false
    → inject false (c ∷ cs) ++ left ≡ c ∷ (inject false cs ++ left)
unfolding inject special
inject_other c cs left s q b = ground arith

-- A rune of the content as it was injected.
take_injected :
    (l : Lexer) (v : Bytes) (c : ℕ) (cs left : List ℕ)
    → special c ≡ 0
    → l.cursor.rest ≡ inject false (c ∷ cs) ++ left
    → Takes l v c (inject false cs ++ left)
unfolding inject
take_injected l v c cs left s e = elim (Bool-cases (c == b'"')) [
  | inl q ↦
      let same = (==_iff c b'"').0 q in
      rw same (take_quote l v (inject false cs ++ left) (rw same at e))
  | inr q ↦ elim (Bool-cases (c == 10)) [
    | inl b ↦
        let same = (==_iff c 10).0 b in
        rw same (take_break l v (inject false cs ++ left) (rw same at e))
    | inr b ↦ take_other l v c (inject false cs ++ left) s q b (e ∙ inject_other c cs left s q b)
  ]
]

-- The literal ends behind its content, with all of it in the token.
abbrev ReadsContent : Lexer → Bytes → List ℕ → Option Lexer → Type 0
ReadsContent l v left r =
    (k : Cursor) × (r ≡ some (add_token_with_lexeme token_string v (record l { cursor = k })))
    × (k.rest ≡ left)

inject-shorter :
    (c : ℕ) (cs left : List ℕ)
    → special c ≡ 0
    → length (inject false cs ++ left) < length (inject false (c ∷ cs) ++ left)
unfolding inject special
inject-shorter c cs left s = ground arith

module _ (f : ℕ) (l : Lexer) (v : Bytes) where
  run_again :
      (m : Lexer) (w : Bytes)
      → body_round token_string_head token_string b'"' l v ≡ again m w
      → run_body (suc f) token_string_head token_string b'"' l v
        ≡ run_body f token_string_head token_string b'"' m w
  unfolding run_body
  run_again m w step = rw (step, run_body) refl

  run_done :
      (m : Lexer)
      → body_round token_string_head token_string b'"' l v ≡ done m
      → run_body (suc f) token_string_head token_string b'"' l v ≡ some m
  unfolding run_body
  run_done m step = rw (step, run_body) refl

take_end :
    (l : Lexer) (v : Bytes) (left : List ℕ)
    → l.cursor.rest ≡ inject false [] ++ b'"' ∷ left
    → (k : Cursor) × (body_round token_string_head token_string b'"' l v
        ≡ done (add_token_with_lexeme token_string v (record l { cursor = k })))
      × (k.rest ≡ left)
unfolding inject body_round advance
take_end l v left e = (advance l.cursor, ground (arith, e), ground (arith, e))

run_body-inject :
    (cs : List ℕ) (f : ℕ) (l : Lexer) (v : Bytes) (left : List ℕ)
    → IsPlainText cs
    → l.cursor.rest ≡ inject false cs ++ b'"' ∷ left
    → length l.cursor.rest < f
    → ReadsContent l (v ++ encode cs) left (run_body f token_string_head token_string b'"' l v)
unfolding encode
run_body-inject cs zero l v left p e h = absurd (omega arith)
run_body-inject [] (suc f) l v left p e h =
    let (k, step, rest) = take_end l v left e in (k, rw append-nil (run_done f l v _ step), rest)
run_body-inject (c ∷ cs) (suc f) l v left p e h =
    let (k, step, rest) = take_injected l v c cs (b'"' ∷ left) (omega arith) e in
    let (m, ran, done_rest) =
      run_body-inject cs f (record l { cursor = k }) (v ++ encode_rune c) left (omega arith) rest
        (omega (
          arith,
          ap (length {0}) e,
          ap (length {0}) rest,
          inject-shorter c cs (b'"' ∷ left) (omega arith),
        )) in
    (
      m,
      (run_again f l v _ _ step
          ∙ ran
          ∙ ap (λ text. some (add_token_with_lexeme token_string text (record l { cursor = m })))
              (append_assoc v (encode_rune c) (encode cs))),
      done_rest,
    )

-- `scanStringFromContent` on plain text: one token STRING that holds the content, whatever line
-- breaks and quotes are in it, and nothing else of the source is read.
pub scan_string_from_content-plain :
    (cs : List ℕ) (l : Lexer)
    → IsPlainText cs
    → (k : Cursor) × (scan_string_from_content cs l
        ≡ add_token_with_lexeme token_string (encode cs) (record l { cursor = k }))
      × (k.rest ≡ l.cursor.rest)
unfolding scan_string_from_content scan_string_body
scan_string_from_content-plain cs l p =
    let m = on_cursor (splice cs) l in
    let (k, ran, rest) =
      run_body-inject cs (suc (length m.cursor.rest)) m [] l.cursor.rest p refl (omega arith) in
    (k, rw ran refl, rest)

-- A multi-line literal whose dedented content is plain text: one token STRING that holds that
-- content, no error, and the scan goes on behind the closing quote, on the line of that quote.
pub rescan-plain :
    (start : ℕ) (raw : List ℕ) (l : Lexer)
    → IsPlainText raw
    → (k : Cursor) × (rescan start raw l
        ≡ on_cursor
            (λ c. record c { line = l.cursor.line; column = l.cursor.column })
            (add_token_with_lexeme token_string
              (encode (dedent_triple_quote raw))
              (record l { cursor = k })))
      × (k.rest ≡ l.cursor.rest)
unfolding rescan
rescan-plain start raw l p =
    let q : IsPlainText (dedent_triple_quote raw) =
      omega (arith, dedent_triple_quote-le special raw) in
    let (k, ran, rest) =
      scan_string_from_content-plain (dedent_triple_quote raw)
        (on_cursor (λ c. record c { line = start }) l) q in
    (k, rw ran refl, rest)
