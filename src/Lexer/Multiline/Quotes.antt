-- ===== src/Lexer/Multiline/Quotes.antt =====
-- Where a single-quoted string ends (internal/lexer/lexer.go, `scanSingleQuoteString`).
use kukicha.Prelude.{
  ℕ, false, ◌||◌, List, [], ◌∷◌, ◌++◌, ◌≡◌, refl, sym, ap, ◌∙◌, arith, sum_by, ◌==◌, if◌then◌else◌,
  append_assoc, append-nil,
}
use kukicha.Token.{Token, token_string}
use kukicha.Lexer.Cursor.{Cursor, take_rune}
use kukicha.Lexer.State.{Lexer, add_token_with_lexeme}
use kukicha.Lexer.Strings.{single_run, take_raw, scan_single_quote_string}
use kukicha.Lexer.Multiline.{IsPlainText, rescan-plain}

-- A text with no backslash and no single quote.
unfoldable pub quote_or_backslash : ℕ → ℕ
quote_or_backslash c = if c == b'\'' || c == b'\\' then 1 else 0

single_run-plain :
    (c : ℕ) (cs : List ℕ) (k : Cursor) (raw : List ℕ)
    → quote_or_backslash c ≡ 0
    → single_run false (c ∷ cs) k raw ≡ single_run false cs (take_raw c cs k) (raw ++ c ∷ [])
unfolding single_run quote_or_backslash
single_run-plain c cs k raw h = ground arith

-- Behind such a text the loop stands at the rune that follows it, with the text read.
single_run-text :
    (text rest : List ℕ) (k : Cursor) (raw : List ℕ)
    → sum_by quote_or_backslash text ≡ 0
    → (m : Cursor) × (single_run false (text ++ rest) k raw ≡ single_run false rest m (raw ++ text))
single_run-text [] rest k raw h = (k, rw append-nil refl)
single_run-text (c ∷ cs) rest k raw h =
    let (m, ran) =
      single_run-text cs rest (take_raw c (cs ++ rest) k) (raw ++ c ∷ []) (omega arith) in
    (
      m,
      single_run-plain c (cs ++ rest) k raw (omega arith)
          ∙ ran
          ∙ ap (single_run false rest m) (append_assoc raw (c ∷ []) cs),
    )

-- The raw content of a literal whose text has no quote and no backslash runs up to the first
-- single quote, and the scan goes on behind that quote.
pub single_run-closed :
    (text rest : List ℕ) (k : Cursor)
    → sum_by quote_or_backslash text ≡ 0
    → ((single_run false (text ++ b'\'' ∷ rest) k []).1 ≡ text)
      × ((single_run false (text ++ b'\'' ∷ rest) k []).0.rest ≡ rest)
single_run-closed text rest k h =
    let (m, ran) = single_run-text text (b'\'' ∷ rest) k [] h in
    (rw ran (unfold single_run in refl), rw ran (unfold single_run in refl))

-- Behind a text with no quote and no backslash, the quote of `\\'` does not end the literal: the
-- second backslash is taken for the start of `\'`, and the loop goes on behind the quote, with the
-- text and `\'` as the content so far.
pub single_run-escaped_backslash :
    (text rest : List ℕ) (k : Cursor)
    → sum_by quote_or_backslash text ≡ 0
    → (m : Cursor) × (single_run false (text ++ b'\\' ∷ b'\\' ∷ b'\'' ∷ rest) k []
        ≡ single_run false rest m (text ++ b'\\' ∷ b'\'' ∷ []))
single_run-escaped_backslash text rest k h =
    let (m, ran) = single_run-text text (b'\\' ∷ b'\\' ∷ b'\'' ∷ rest) k [] h in
    let k1 = take_raw b'\\' (b'\\' ∷ b'\'' ∷ rest) m in
    let k2 = take_raw b'\\' (b'\'' ∷ rest) k1 in
    (
      take_rune b'\'' rest k2,
      ran
          ∙ (unfold single_run in
              ap (single_run false rest _) (append_assoc text (b'\\' ∷ []) (b'\'' ∷ []))),
    )

-- If all that is left of the file is a text with no single quote, backslash, opening brace, NUL or
-- CR, then scanSingleQuoteString records no error and adds one token,
-- of type STRING.
pub scan_single_quote_string_unterminated :
    (text : List ℕ) (l : Lexer)
    → l.cursor.rest ≡ text
    → sum_by quote_or_backslash text ≡ 0
    → IsPlainText text
    → ((scan_single_quote_string l).errors ≡ l.errors)
      × (t : Token) × ((scan_single_quote_string l).tokens ≡ l.tokens ++ t ∷ [])
      × (t.type ≡ token_string)
unfolding scan_single_quote_string
scan_single_quote_string_unterminated text l e h p =
    let (m, ran) = single_run-text text [] l.cursor [] h in
    let r = single_run false l.cursor.rest l.cursor [] in
    let raw : r.1 ≡ text =
      ap (λ (s : List ℕ). (single_run false s l.cursor []).1) (e ∙ sym (append-nil text))
      ∙ ap (λ (x : Cursor × List ℕ). x.1) ran
      ∙ (unfold single_run in refl) in
    let (k, whole, left) = rescan-plain l.cursor.line r.1 (record l { cursor = r.0 }) (rw raw p) in
    rw whole (unfold add_token_with_lexeme in (refl, _, refl, refl))
