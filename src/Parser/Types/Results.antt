-- ===== src/Parser/Types/Results.antt =====
-- internal/parser/parser_type.go: a function type without results, where the result is taken for
-- missing.
use kukicha.Prelude.{ℕ, suc, true, ◌≡◌, refl, List, [], ◌∷◌, ◌++◌, codes}
use kukicha.Token.{
  Token, TokenType, type_index, token_func, token_lparen, token_rparen, token_to, token_rbracket,
  token_rbrace, token_assign, token_colon,
}
use kukicha.Token.Names.{type_name}
use kukicha.Ast.Types.{named_type, function_type, no_types, and_type}
use kukicha.Parser.State.{Parser, done, parse_error}
use kukicha.Parser.Cursor.{one_of}
use kukicha.Parser.Types.{parse_type_annotation}
use kukicha.Parser.Views.{of_type, at}

-- parseTypeAnnotation reports an error for func() in front of `to`, a closing bracket, a closing brace,
-- `=` or a colon, and gives it the result _.
pub parse_type_annotation-no_result :
    (k : TokenType) (fuel : ℕ) (b r : List Token) (p : Parser) (t o u x : Token)
    → one_of (token_to ∷ token_rbracket ∷ token_rbrace ∷ token_assign ∷ token_colon ∷ []) k ≡ true
    → parse_type_annotation (suc (suc fuel)) (
        at b
          (of_type token_func t ∷ of_type token_lparen o ∷ of_type token_rparen u ∷ of_type k x ∷ r)
          p)
      ≡ done
          (function_type
            (of_type token_func t)
            no_types
            (and_type (named_type (of_type k x) (codes "_")) no_types))
          (record p {
            before = of_type token_rparen u ∷ of_type token_lparen o ∷ of_type token_func t ∷ b;
            rest = of_type k x ∷ r;
            errors =
                p.errors
                ++ parse_error
                    (of_type k x)
                    (codes "expected type annotation, got " ++ codes (type_name k))
                  ∷ [];
          })
unfolding parse_type_annotation type_index
parse_type_annotation-no_result token_to fuel b r p t o u x h = refl
parse_type_annotation-no_result token_rbracket fuel b r p t o u x h = refl
parse_type_annotation-no_result token_rbrace fuel b r p t o u x h = refl
parse_type_annotation-no_result token_assign fuel b r p t o u x h = refl
parse_type_annotation-no_result token_colon fuel b r p t o u x h = refl
parse_type_annotation-no_result _ fuel b r p t o u x h = cc
