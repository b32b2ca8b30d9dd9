-- ===== src/Parser/Literals.antt =====
-- internal/parser/parser_expr.go: identifiers and literals of one token, and interpolated strings.
use mathlib.Core.List.{reverse}
use kukicha.Prelude.{
  ℕ, zero, suc, ◌-◌, Bool, true, false, List, [], ◌∷◌, ◌++◌, Bytes, codes, if◌then◌else◌, none,
  some, length, take, is_empty, pos,
}
use kukicha.Token.{
  Token, TokenType, is_type, token_identifier, token_empty, token_error, token_close, token_make,
  token_send, token_receive, token_panic, token_recover, token_map, token_list, token_channel,
  token_select, token_type, token_skill, token_enum, token_on, token_of, token_as, token_from,
  token_to, token_in, token_default, token_discard, token_many, token_string_mid, token_string_tail,
  token_true,
}
use kukicha.Token.Names.{type_name}
use kukicha.Ast.Types.{Identifier}
use kukicha.Ast.Trees.{
  Expression, integer_literal, float_literal, string_literal, boolean_literal, Parts, no_parts,
  literal_part, expression_part,
}
use kukicha.Parser.State.{done, M, ◌>>=◌, ◌>>◌, pure, no_fuel, add_error, keep_error, ParserError}
use kukicha.Parser.Cursor.{peek_token, is_at_end, advance, one_of}
use kukicha.Parser.Numbers.{parse_int}
use kukicha.Parser.Parsers.{Parsers}

abbrev identifier_types : List TokenType
identifier_types =
    token_identifier ∷ token_empty ∷ token_error ∷ token_close ∷ token_make ∷ token_send
    ∷ token_receive ∷ token_panic ∷ token_recover ∷ token_map ∷ token_list ∷ token_channel
    ∷ token_select ∷ token_type ∷ token_skill ∷ token_enum ∷ token_on ∷ token_of ∷ token_as
    ∷ token_from ∷ token_to ∷ token_in ∷ token_default ∷ token_discard ∷ token_many ∷ []

-- `isIdentifierToken`
unfoldable pub is_identifier_token : TokenType → Bool
is_identifier_token t = one_of identifier_types t

abbrev pub named : Token → Bytes → Identifier
named t v = record { token = t; value = v }

unfoldable pub parse_identifier : M Identifier
unfolding advance is_identifier_token add_error
parse_identifier = do
  token ← advance
  if is_identifier_token token.type
      then pure (named token token.lexeme)
      else do add_error token (codes "expected identifier"); pure (named token (codes "_"))

unfoldable pub parse_integer_literal : M Expression
unfolding advance parse_int
parse_integer_literal = do
  token ← advance
  elim (parse_int token.lexeme) [
    | some value ↦ pure (integer_literal token value)
    | none ↦ keep_error (ParserError.integer_error token) >> pure (integer_literal token (pos 0))
  ]

unfoldable pub parse_float_literal : Parsers → M Expression
unfolding advance
parse_float_literal self = do
  token ← advance
  elim (self.parse_float token.lexeme) [
    | some value ↦ pure (float_literal token value)
    | none ↦ keep_error (ParserError.float_error token) >> pure (float_literal token 0)
  ]

unfoldable pub parse_string_literal : M Expression
unfolding advance
parse_string_literal = do
  token ← advance
  pure (string_literal token token.lexeme false false no_parts)

unfoldable pub parse_raw_string_literal : M Expression
unfolding advance
parse_raw_string_literal = do
  token ← advance
  pure (string_literal token token.lexeme true false no_parts)

unfoldable pub parse_boolean_literal : M Expression
unfolding advance
parse_boolean_literal = do
  token ← advance
  pure (boolean_literal token (is_type token_true token.type))

abbrev lexemes : List Token → Bytes
lexemes [] = []
lexemes (t ∷ []) = t.lexeme
lexemes (t ∷ u ∷ ts) = t.lexeme ++ (codes " " ++ lexemes (u ∷ ts))

abbrev position : M ℕ
position p = done (length p.before) p

-- The lexemes of the tokens from position `start` on to the present one.
raw_text : ℕ → M Bytes
raw_text start p = done (lexemes (reverse (take (length p.before - start) p.before))) p

abbrev with_literal : Bytes → Parts → Parts
with_literal text parts = if is_empty text then parts else literal_part text parts

-- The loop over the interpolations: the text that it writes to `valueBuf`, and the parts.
unfoldable pub parse_interpolations : Parsers → ℕ → M (Bytes × Parts)
unfolding is_at_end raw_text peek_token advance add_error
parse_interpolations self zero = no_fuel
parse_interpolations self (suc fuel) = do
  end ← is_at_end
  if end then pure ([], no_parts) else do
    start ← position
    expr ← self.parse_expression
    text ← raw_text start
    let written = codes "{" ++ (text ++ codes "}")
    next ← peek_token
    if is_type token_string_mid next.type
        then (do
          mid ← advance
          (value, parts) ← parse_interpolations self fuel
          pure (
            written ++ (mid.lexeme ++ value),
            expression_part expr (with_literal mid.lexeme parts),
          ))
        else if is_type token_string_tail next.type
        then (do
          tail ← advance
          pure (written ++ tail.lexeme, expression_part expr (with_literal tail.lexeme no_parts)))
        else do
          add_error next (
              codes "expected string continuation or end after interpolation, got "
              ++ codes (type_name next.type))
          pure (written, expression_part expr no_parts)

unfoldable pub parse_interpolated_string_literal : Parsers → M Expression
unfolding advance parse_interpolations
parse_interpolated_string_literal self = do
  head ← advance
  (value, parts) ← parse_interpolations self self.fuel
  pure (string_literal head (head.lexeme ++ value) false true (with_literal head.lexeme parts))
