-- ===== src/Parser/Lambdas.antt =====
-- internal/parser/parser_expr.go: function literals and arrow lambdas.
use kukicha.Prelude.{
  ℕ, zero, suc, ◌+◌, ◌-◌, Bool, false, ◌&&◌, ◌||◌, List, [], ◌∷◌, codes, ◌==◌, if◌then◌else◌, none,
}
use kukicha.Token.{
  Token, is_type, token_lparen, token_rparen, token_newline, token_eof, token_indent, token_dedent,
  token_comment, token_fat_arrow, token_identifier, token_comma, token_assign,
}
use kukicha.Ast.Types.{no_types}
use kukicha.Ast.Trees.{
  Expression, function_literal, arrow_lambda, no_expression, an_expression, Parameters,
  no_parameters, and_parameter, no_block, a_block,
}
use kukicha.Parser.State.{done, M, ◌>>=◌, ◌>>◌, pure, no_fuel}
use kukicha.Parser.Cursor.{peek_next_token, advance, check, matches, consume, skip_newlines, one_of}
use kukicha.Parser.Parsers.{Parsers}
use kukicha.Parser.Literals.{named, parse_identifier}
use kukicha.Parser.Arguments.{parse_parameter_type, parse_parameters, parse_return_types}

-- `i < len(p.tokens) && p.tokens[i].Type == lexer.TOKEN_FAT_ARROW` behind comments.
arrow_follows : List Token → Bool
arrow_follows [] = false
arrow_follows (t ∷ ts) =
    let next = arrow_follows ts in
    if is_type token_comment t.type then next else is_type token_fat_arrow t.type

-- The loop of `isArrowLambda`, inside `depth` parentheses.
unfoldable pub arrow_ahead : ℕ → List Token → Bool
unfolding arrow_follows
arrow_ahead depth [] = false
arrow_ahead depth (t ∷ ts) =
    let opened = arrow_ahead (depth + 1) ts in
    let closed = arrow_ahead (depth - 1) ts in
    let next = arrow_ahead depth ts in
    if is_type token_lparen t.type
    then opened
    else if is_type token_rparen t.type
    then if depth == 1 then arrow_follows ts else closed
    else if one_of (token_newline ∷ token_eof ∷ token_indent ∷ token_dedent ∷ []) t.type
    then false
    else next

unfoldable pub is_arrow_lambda : M Bool
unfolding arrow_ahead
is_arrow_lambda p = done (arrow_ahead 0 p.rest) p

module _ (self : Parsers) where
  unfoldable pub parse_function_literal : M Expression
  unfolding advance consume parse_parameters check parse_return_types skip_newlines
  parse_function_literal = do
    token ← advance
    consume token_lparen (codes "expected '(' after 'func'")
    params ← parse_parameters self
    consume token_rparen (codes "expected ')' after parameters")
    newline ← check token_newline
    indent ← check token_indent
    returns ← (if newline || indent then pure no_types else parse_return_types self)
    skip_newlines
    body ← self.parse_block
    pure (function_literal token params returns body)

  unfoldable pub parse_arrow_lambda_params : ℕ → M Parameters
  unfolding parse_identifier parse_parameter_type matches
  parse_arrow_lambda_params zero = no_fuel
  parse_arrow_lambda_params (suc fuel) = do
    name ← parse_identifier
    type ← parse_parameter_type self
    assign ← matches (token_assign ∷ [])
    value ←
        (if assign
          then (do e ← self.parse_expression; pure (an_expression e))
          else pure no_expression)
    comma ← matches (token_comma ∷ [])
    rest ← (if comma then parse_arrow_lambda_params fuel else pure no_parameters)
    pure (and_parameter name type false value rest)

  -- The parameters in front of the arrow.
  unfoldable pub parse_arrow_parameters : M Parameters
  unfolding check peek_next_token advance consume parse_arrow_lambda_params
  parse_arrow_parameters = do
    word ← check token_identifier
    next ← peek_next_token
    if word && is_type token_fat_arrow next.type
        then (do
          t ← advance
          pure (and_parameter (named t t.lexeme) none false no_expression no_parameters))
        else do
          open_paren ← check token_lparen
          if open_paren
              then (do
                advance
                closed ← check token_rparen
                params ←
                    (if closed then pure no_parameters else parse_arrow_lambda_params self.fuel)
                consume token_rparen (codes "expected ')' after arrow lambda parameters")
                pure params)
              else pure no_parameters

  unfoldable pub parse_arrow_lambda : M Expression
  unfolding parse_arrow_parameters consume check skip_newlines
  parse_arrow_lambda = do
    params ← parse_arrow_parameters
    arrow ← consume token_fat_arrow (codes "expected '=>' in arrow lambda")
    newline ← check token_newline
    indent ← check token_indent
    if newline || indent then skip_newlines else pure tt
    indented ← check token_indent
    if (newline || indent) && indented
        then (do
          block ← self.parse_block
          pure (arrow_lambda arrow params no_expression (a_block block)))
        else do
          body ← self.parse_expression
          pure (arrow_lambda arrow params (an_expression body) no_block)
