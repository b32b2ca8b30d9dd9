-- ===== src/Lexer/Multiline/Regular.antt =====
-- Double-quoted strings (internal/lexer/lexer.go, `scanString`): the scan undoes the escaping.
use mathlib.Core.Option.{get_or}
use kukicha.Prelude.{ℕ, suc, false, List, [], ◌∷◌, ◌++◌, ◌≡◌, ap, arith, length}
use kukicha.Token.{token_string}
use kukicha.Lexer.Utf8.{encode}
use kukicha.Lexer.Cursor.{Cursor, matches}
use kukicha.Lexer.State.{Lexer, add_token_with_lexeme}
use kukicha.Lexer.Strings.{scan_string, scan_string_body}
use kukicha.Lexer.Strings.Dedent.{inject}
use kukicha.Lexer.Multiline.{special, IsPlainText, run_body-inject}

no_quote_ahead :
    (c : ℕ) (cs left : List ℕ) (k : Cursor)
    → special c ≡ 0
    → k.rest ≡ inject false (c ∷ cs) ++ left
    → matches b'"' k ≡ false
unfolding matches inject special
no_quote_ahead c cs left k s e = ground (arith, s, e)

-- If a text that is not empty and has no backslash, opening brace, NUL or CR stands escaped in the
-- source, with the closing quote behind it, then `scanString` emits one token STRING that holds
-- the text, records no error and stops behind that quote.
pub scan_string-plain :
    (c : ℕ) (cs left : List ℕ) (l : Lexer)
    → IsPlainText (c ∷ cs)
    → l.cursor.rest ≡ inject false (c ∷ cs) ++ b'"' ∷ left
    → (k : Cursor) × (scan_string l
        ≡ add_token_with_lexeme token_string (encode (c ∷ cs)) (record l { cursor = k }))
      × (k.rest ≡ left)
unfolding scan_string scan_string_body
scan_string-plain c cs left l p e =
    let (k, ran, rest) =
      run_body-inject (c ∷ cs) (suc (length l.cursor.rest)) l [] left p e (omega arith) in
    let ahead = no_quote_ahead c cs (b'"' ∷ left) l.cursor (omega arith) e in
    (k, rw ahead (ap (λ r. get_or r l) ran), rest)
