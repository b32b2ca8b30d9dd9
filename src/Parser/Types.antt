-- ===== src/Parser/Types.antt =====
-- internal/parser/parser_type.go: `parseTypeAnnotation`. A case of its switch is a function of the
-- parser that it calls again; loops run on fuel.
pub mod Grammar
pub mod Complete
pub mod Results
pub mod Halting
use kukicha.Prelude.{
  ℕ, zero, suc, Bool, true, false, not, ◌&&◌, ◌||◌, List, [], ◌∷◌, ◌++◌, Bytes, codes, same,
  if◌then◌else◌,
}
use kukicha.Token.{
  Token, TokenType, is_type, token_lbracket, token_rbracket, token_reference, token_star,
  token_list, token_of, token_map, token_to, token_channel, token_func, token_lparen, token_rparen,
  token_comma, token_newline, token_eof, token_indent, token_dedent, token_error, token_identifier,
  token_dot,
}
use kukicha.Token.Names.{type_name}
use kukicha.Ast.Types.{
  TypeAnnotation, TypeAnnotations, primitive_type, named_type, reference_type, list_type, map_type,
  channel_type, function_type, no_types, and_type,
}
use kukicha.Parser.State.{Parser, Run, done, M, ◌>>=◌, ◌>>◌, pure, no_fuel, add_error}
use kukicha.Parser.Cursor.{peek_token, advance, check, matches, consume, one_of}

abbrev any_same : Bytes → List Bytes → Bool
any_same w [] = false
any_same w (v ∷ vs) = same w v || any_same w vs

abbrev primitive_names : List Bytes
primitive_names =
    codes "int"
    ∷ codes "int8"
    ∷ codes "int16"
    ∷ codes "int32"
    ∷ codes "int64"
    ∷ codes "uint"
    ∷ codes "uint8"
    ∷ codes "uint16"
    ∷ codes "uint32"
    ∷ codes "uint64"
    ∷ codes "float32"
    ∷ codes "float64"
    ∷ codes "string"
    ∷ codes "bool"
    ∷ codes "byte"
    ∷ codes "rune"
    ∷ []

unfoldable pub is_primitive : Bytes → Bool
unfolding same
is_primitive w = any_same w primitive_names

-- A peek at a token of type `k`.
unfoldable pub peeks : TokenType → M Bool
unfolding peek_token
peeks k = do t ← peek_token; pure (is_type k t.type)

-- The tokens in front of which a function type has no results.
abbrev pub result_stops : List TokenType
result_stops =
    token_newline ∷ token_comma ∷ token_rparen ∷ token_eof ∷ token_indent ∷ token_dedent ∷ []

module _ (element : M TypeAnnotation) where
  -- `for p.peekToken().Type == lexer.TOKEN_COMMA`
  unfoldable pub more_parameters : ℕ → M TypeAnnotations
  unfolding peeks advance
  more_parameters zero = no_fuel
  more_parameters (suc fuel) = do
    comma ← peeks token_comma
    if comma
        then (do advance; t ← element; ts ← more_parameters fuel; pure (and_type t ts))
        else pure no_types

  -- The loop over the results in parentheses.
  unfoldable pub more_results : ℕ → M TypeAnnotations
  unfolding matches
  more_results zero = no_fuel
  more_results (suc fuel) = do
    t ← element
    comma ← matches (token_comma ∷ [])
    if comma then (do ts ← more_results fuel; pure (and_type t ts)) else pure (and_type t no_types)

  unfoldable pub parse_parameter_types : ℕ → M TypeAnnotations
  unfolding peeks more_parameters
  parse_parameter_types fuel = do
    empty ← peeks token_rparen
    if empty then pure no_types else do t ← element; ts ← more_parameters fuel; pure (and_type t ts)

  unfoldable pub parse_result_types : ℕ → M TypeAnnotations
  unfolding peek_token check advance consume more_results
  parse_result_types fuel = do
    next ← peek_token
    if one_of result_stops next.type then pure no_types else do
      several ← check token_lparen
      if several
          then (do
            advance
            ts ← more_results fuel
            consume token_rparen (codes "expected ')' after return types")
            pure ts)
          else do t ← element; pure (and_type t no_types)

  -- The case of an identifier.
  unfoldable pub parse_type_name : M TypeAnnotation
  unfolding advance is_primitive peeks consume
  parse_type_name = do
    token ← advance
    if is_primitive token.lexeme then pure (primitive_type token token.lexeme) else do
      dot ← peeks token_dot
      if dot
          then (do
            advance
            name ← consume token_identifier (codes "expected type name after '.'")
            pure (named_type token (token.lexeme ++ (codes "." ++ name.lexeme))))
          else pure (named_type token token.lexeme)

  -- The case of a map.
  unfoldable pub parse_map_type : M TypeAnnotation
  unfolding advance check consume
  parse_map_type = do
    token ← advance
    bracket ← check token_lbracket
    if bracket
        then (do
          advance
          key ← element
          consume token_rbracket (codes "expected ']' after map key type")
          value ← element
          pure (map_type token key value))
        else do
          consume token_of (codes "expected 'of' or '[' after 'map'")
          key ← element
          consume token_to (codes "expected 'to' after map key type")
          value ← element
          pure (map_type token key value)

  -- The switch on the token's type.
  unfoldable pub type_case : ℕ → Token → TokenType → M TypeAnnotation
  unfolding advance consume parse_parameter_types parse_result_types parse_type_name parse_map_type
      add_error peek_token
  type_case fuel t token_lbracket = do
    token ← advance
    consume token_rbracket (codes "expected ']' after '[' for list type ([]T)")
    e ← element
    pure (list_type token e)
  type_case fuel t token_reference = do token ← advance; e ← element; pure (reference_type token e)
  type_case fuel t token_star = do token ← advance; e ← element; pure (reference_type token e)
  type_case fuel t token_list = do
    token ← advance
    consume token_of (codes "expected 'of' after 'list'")
    e ← element
    pure (list_type token e)
  type_case fuel t token_map = parse_map_type
  type_case fuel t token_channel = do
    token ← advance
    consume token_of (codes "expected 'of' after 'channel'")
    e ← element
    pure (channel_type token e)
  type_case fuel t token_func = do
    token ← advance
    consume token_lparen (codes "expected '(' after 'func'")
    parameters ← parse_parameter_types fuel
    consume token_rparen (codes "expected ')' after function parameters")
    returns ← parse_result_types fuel
    pure (function_type token parameters returns)
  type_case fuel t token_error = do token ← advance; pure (named_type token (codes "error"))
  type_case fuel t token_identifier = parse_type_name
  type_case fuel t other = do
    token ← peek_token
    add_error token (codes "expected type annotation, got " ++ codes (type_name token.type))
    pure (named_type token (codes "_"))

-- `parseTypeAnnotation`
unfoldable pub parse_type_annotation : ℕ → M TypeAnnotation
unfolding peek_token type_case
parse_type_annotation zero = no_fuel
parse_type_annotation (suc fuel) = do
  t ← peek_token
  type_case (parse_type_annotation fuel) fuel t t.type
