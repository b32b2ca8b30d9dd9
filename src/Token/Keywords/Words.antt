-- ===== src/Token/Keywords/Words.antt =====
-- internal/lexer: `IsKeyword` against `LookupKeyword`.
use mathlib.Core.Option.{get_or}
use kukicha.Prelude.{true, not, List, [], ◌∷◌, ◌≡◌, refl, arith, Bytes, is_some, all}
use kukicha.Token.{TokenType, token_identifier, is_type, type_index}
use kukicha.Token.Keywords.{keywords, find_keyword, lookup_keyword, is_keyword}

find_keyword-no_identifier :
    (w : Bytes) (ks : List (Bytes × TokenType))
    → all (λ e. not (is_type e.1 token_identifier)) ks ≡ true
    → is_some (find_keyword ks w)
      ≡ not (is_type (get_or (find_keyword ks w) token_identifier) token_identifier)
unfolding find_keyword
find_keyword-no_identifier w [] h = ground arith
find_keyword-no_identifier w ((k, t) ∷ ks) h = ground (arith, find_keyword-no_identifier w ks)

keywords_no_identifier : all (λ e. not (is_type e.1 token_identifier)) keywords ≡ true
unfolding type_index
keywords_no_identifier = refl

-- `IsKeyword` holds of exactly the words that `LookupKeyword` does not take for identifiers.
pub is_keyword_lem : (w : Bytes) → is_keyword w ≡ not (is_type (lookup_keyword w) token_identifier)
unfolding is_keyword lookup_keyword
is_keyword_lem w = find_keyword-no_identifier w keywords keywords_no_identifier
