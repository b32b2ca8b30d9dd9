-- ===== src/Parser/Views.antt =====
-- internal/parser/parser.go: what the steps of the cursor do where the next token is not ignored.
use kukicha.Prelude.{Bool, true, false, not, ◌&&◌, ◌≡◌, refl, ap, List, [], ◌∷◌}
use kukicha.Token.{Token, TokenType, is_type, token_eof}
use kukicha.Parser.State.{Parser, done, M, ◌>>=◌, and_then}
use kukicha.Parser.Cursor.{is_ignored, head_or_eof, skip_ignored_tokens, peek_token, check, matches}

pub >>=-done :
    {A B : Type 0} (m : M A) (k : A → M B) (p q : Parser) (a : A)
    → m p ≡ done a q
    → (m >>= k) p ≡ k a q
>>=-done m k p q a e = ap (λ r. and_then r k) e

-- A token as it is, but of type `k`.
abbrev pub of_type : TokenType → Token → Token
of_type k t = record t { type = k }

-- The parser at a place between tokens.
abbrev pub at : List Token → List Token → Parser → Parser
at b r p = record p { before = b; rest = r }

-- No comment, semicolon or directive comes next.
abbrev pub IsQuiet : List Token → Type 0
IsQuiet r = is_ignored (head_or_eof r) ≡ false

pub and-false : (x : Bool) → (x && false) ≡ false
and-false true = refl
and-false false = refl

module _ (b r : List Token) (p : Parser) (q : IsQuiet r) where
  pub skip_ignored_tokens-quiet : skip_ignored_tokens (at b r p) ≡ at b r p
  unfolding skip_ignored_tokens
  skip_ignored_tokens-quiet = by_tokens r q
    where
      by_tokens : (r : List Token) → IsQuiet r → skip_ignored_tokens (at b r p) ≡ at b r p
      by_tokens [] q = refl
      by_tokens (t ∷ ts) q = rw q refl

  pub peek_token-quiet : peek_token (at b r p) ≡ done (head_or_eof r) (at b r p)
  unfolding peek_token
  peek_token-quiet = rw skip_ignored_tokens-quiet refl

  -- A token of another type.
  pub check-lacks :
      (k : TokenType)
      → is_type k (head_or_eof r).type ≡ false
      → check k (at b r p) ≡ done false (at b r p)
  unfolding check
  check-lacks k h =
      rw skip_ignored_tokens-quiet
        (rw h (rw (and-false (not (is_type token_eof (head_or_eof r).type))) refl))

  pub matches-lacks :
      (k : TokenType)
      → is_type k (head_or_eof r).type ≡ false
      → matches (k ∷ []) (at b r p) ≡ done false (at b r p)
  unfolding matches
  matches-lacks k h =
      rw skip_ignored_tokens-quiet
        (rw h (rw (and-false (not (is_type token_eof (head_or_eof r).type))) refl))
