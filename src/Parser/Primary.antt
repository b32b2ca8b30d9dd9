-- ===== src/Parser/Primary.antt =====
-- internal/parser/parser_expr.go: `parsePrimaryExpr`, and the expressions that a keyword begins.
use kukicha.Prelude.{
  false, not, ◌&&◌, ◌||◌, List, [], ◌∷◌, ◌++◌, Bytes, codes, if◌then◌else◌, none, some,
}
use kukicha.Token.{
  Token, TokenType, is_type, token_walrus, token_assign, token_bit_and, token_bit_and_assign,
  token_dot, token_lbracket, token_rbracket, token_lbrace, token_colon, token_pipe, token_rparen,
  token_lparen, token_comma, token_string_mid, token_string_tail, token_newline, token_and,
  token_or, token_not_equals, token_isnt, token_double_equals, token_bang, token_identifier,
  token_map, token_list, token_func, token_channel, token_reference, token_from, token_dedent,
  token_semicolon, token_then, token_else, token_if, token_fat_arrow, token_of, token_integer,
  token_float, token_string, token_string_raw, token_string_head, token_true, token_false,
  token_empty, token_discard, token_error, token_make, token_close, token_panic, token_recover,
  token_receive, token_return,
}
use kukicha.Token.Names.{type_name}
use kukicha.Ast.Trees.{
  Expression, identifier, empty_expr, discard_expr, error_expr, make_expr, close_expr, panic_expr,
  recover_expr, receive_expr, return_expr, if_expression, method_call_expr, field_access_expr,
  no_expression, no_expressions, no_named,
}
use kukicha.Parser.State.{M, ◌>>=◌, ◌>>◌, pure, add_error}
use kukicha.Parser.Cursor.{
  peek_token, peek_next_token, is_at_end, advance, check, matches, consume, one_of,
  is_identifier_follower,
}
use kukicha.Parser.Parsers.{Parsers, parse_type}
use kukicha.Parser.Literals.{
  named, parse_identifier, parse_integer_literal, parse_float_literal, parse_string_literal,
  parse_raw_string_literal, parse_boolean_literal, parse_interpolated_string_literal,
}
use kukicha.Parser.Arguments.{more_expressions, parse_expression_list}
use kukicha.Parser.Composites.{
  parse_list_literal, parse_typed_list_literal, parse_bracket_list_expr, parse_bracket_map_expr,
  parse_map_literal, parse_untyped_composite_literal, parse_identifier_or_struct_literal,
}
use kukicha.Parser.Lambdas.{is_arrow_lambda, parse_function_literal, parse_arrow_lambda}

-- A token that is taken for an identifier whatever its type.
unfoldable pub parse_word : M Expression
unfolding advance
parse_word = do token ← advance; pure (identifier (named token token.lexeme))

-- The tokens behind `empty` in front of which it is an identifier.
abbrev empty_followers : List TokenType
empty_followers =
    token_walrus ∷ token_assign ∷ token_bit_and ∷ token_bit_and_assign ∷ token_dot ∷ token_lbracket
    ∷ token_colon ∷ token_pipe ∷ token_rparen ∷ token_comma ∷ token_string_mid ∷ token_string_tail
    ∷ []

-- The tokens that never begin the type of `empty`, and those that may.
abbrev empty_stops : List TokenType
empty_stops =
    token_newline ∷ token_comma ∷ token_rparen ∷ token_and ∷ token_or ∷ token_not_equals
    ∷ token_isnt ∷ token_double_equals ∷ token_bang ∷ token_pipe ∷ []

abbrev empty_types : List TokenType
empty_types =
    token_identifier ∷ token_map ∷ token_list ∷ token_func ∷ token_channel ∷ token_reference ∷ []

module _ (self : Parsers) where
  unfoldable pub parse_empty_expr : M Expression
  unfolding advance peek_token is_at_end parse_type
  parse_empty_expr = do
    token ← advance
    next ← peek_token
    end ← is_at_end
    if not (one_of empty_stops next.type) && not end && one_of empty_types next.type
        then (do t ← parse_type self; pure (empty_expr token (some t)))
        else pure (empty_expr token none)

  unfoldable pub parse_error_expr : M Expression
  unfolding advance
  parse_error_expr = do
    token ← advance
    message ← self.parse_expression
    pure (error_expr token message)

  unfoldable pub parse_make_expr : M Expression
  unfolding advance consume parse_type more_expressions
  parse_make_expr = do
    token ← advance
    consume token_lparen (codes "expected '(' after 'make'")
    type ← parse_type self
    args ← more_expressions self self.fuel
    consume token_rparen (codes "expected ')' after make arguments")
    pure (make_expr token type args)

  unfoldable pub parse_close_expr : M Expression
  unfolding advance
  parse_close_expr = do
    token ← advance
    channel ← self.parse_expression
    pure (close_expr token channel)

  unfoldable pub parse_panic_expr : M Expression
  unfolding advance
  parse_panic_expr = do
    token ← advance
    message ← self.parse_expression
    pure (panic_expr token message)

  -- The case of `recover`, with the parentheses that may follow.
  unfoldable pub parse_recover : M Expression
  unfolding advance check consume
  parse_recover = do
    token ← advance
    open_paren ← check token_lparen
    if open_paren
        then (do
          advance
          consume token_rparen (codes "expected ')' after 'recover('")
          pure (recover_expr token))
        else pure (recover_expr token)

  unfoldable pub parse_receive_expr : M Expression
  unfolding advance consume
  parse_receive_expr = do
    token ← advance
    consume token_from (codes "expected 'from' after 'receive'")
    channel ← self.parse_expression
    pure (receive_expr token channel)

  unfoldable pub parse_grouped_expression : M Expression
  unfolding advance consume
  parse_grouped_expression = do
    advance
    e ← self.parse_expression
    consume token_rparen (codes "expected ')' after expression")
    pure e

  -- `skipIgnoredTokens` has skipped the semicolons before `check` can see one.
  unfoldable pub parse_return_expr : M Expression
  unfolding advance check is_at_end parse_expression_list
  parse_return_expr = do
    token ← advance
    newline ← check token_newline
    dedent ← check token_dedent
    semicolon ← check token_semicolon
    end ← is_at_end
    values ←
        (if newline || dedent || semicolon || end
          then pure no_expressions
          else parse_expression_list self)
    pure (return_expr token values)

  unfoldable pub parse_shorthand_method_call : M Expression
  unfolding advance parse_identifier matches check parse_expression_list consume
  parse_shorthand_method_call = do
    token ← advance
    method ← parse_identifier
    called ← matches (token_lparen ∷ [])
    if called
        then (do
          closed ← check token_rparen
          args ← (if closed then pure no_expressions else parse_expression_list self)
          consume token_rparen (codes "expected ')' after method arguments")
          pure (method_call_expr token no_expression method args no_named false))
        else pure (field_access_expr token no_expression method)

  -- An error, and the identifier that stands for the expression.
  unfoldable pub incomplete_if : Token → Bytes → M Expression
  unfolding peek_token add_error
  incomplete_if token message = do
    t ← peek_token
    add_error t message
    pure (identifier (named token (codes "nil")))

  -- `parseIfExpression`
  unfoldable pub parse_if : M Expression
  unfolding advance matches incomplete_if check
  parse_if = do
    token ← advance
    condition ← self.parse_expression
    has_then ← matches (token_then ∷ [])
    if has_then
        then (do
          consequence ← self.parse_expression
          has_else ← matches (token_else ∷ [])
          if has_else
              then (do
                chained ← check token_if
                alternative ← (if chained then self.parse_if_expression else self.parse_expression)
                pure (if_expression token condition consequence alternative))
              else incomplete_if token (codes "if-expression requires 'else' branch"))
        else incomplete_if token (codes "expected 'then' in if-expression")

  -- The cases that look at the token behind the first one.
  unfoldable pub parse_empty_or_word : M Expression
  unfolding peek_next_token parse_word parse_empty_expr
  parse_empty_or_word = do
    next ← peek_next_token
    if one_of empty_followers next.type then parse_word else parse_empty_expr

  unfoldable pub parse_error_or_word : M Expression
  unfolding is_identifier_follower check parse_word parse_error_expr
  parse_error_or_word = do
    follower ← is_identifier_follower
    closed ← check token_rparen
    comma ← check token_comma
    colon ← check token_colon
    if follower || closed || comma || colon then parse_word else parse_error_expr

  unfoldable pub parse_list_or_word : M Expression
  unfolding peek_next_token parse_typed_list_literal parse_word
  parse_list_or_word = do
    next ← peek_next_token
    if is_type token_of next.type then parse_typed_list_literal self else parse_word

  unfoldable pub parse_map_or_word : M Expression
  unfolding peek_next_token parse_map_literal parse_bracket_map_expr parse_word
  parse_map_or_word = do
    next ← peek_next_token
    if is_type token_of next.type
        then parse_map_literal self
        else if is_type token_lbracket next.type
        then parse_bracket_map_expr self
        else parse_word

  unfoldable pub parse_bracketed : M Expression
  unfolding peek_next_token parse_bracket_list_expr parse_list_literal
  parse_bracketed = do
    next ← peek_next_token
    if is_type token_rbracket next.type
        then parse_bracket_list_expr self
        else parse_list_literal self

  unfoldable pub parse_parenthesised : M Expression
  unfolding is_arrow_lambda parse_arrow_lambda parse_grouped_expression
  parse_parenthesised = do
    arrow ← is_arrow_lambda
    if arrow then parse_arrow_lambda self else parse_grouped_expression

  unfoldable pub parse_named : M Expression
  unfolding peek_next_token parse_arrow_lambda parse_identifier_or_struct_literal
  parse_named = do
    next ← peek_next_token
    if is_type token_fat_arrow next.type
        then parse_arrow_lambda self
        else parse_identifier_or_struct_literal self

  unfoldable pub unexpected_token : M Expression
  unfolding peek_token add_error advance
  unexpected_token = do
    t ← peek_token
    add_error t (codes "unexpected token in expression: " ++ codes (type_name t.type))
    advance
    pure (identifier (named t (codes "_")))

  -- The switch of `parsePrimaryExpr`.
  unfoldable pub primary_case : TokenType → M Expression
  unfolding parse_integer_literal parse_float_literal parse_string_literal parse_raw_string_literal
      parse_interpolated_string_literal parse_boolean_literal parse_named parse_empty_or_word
      advance parse_error_or_word parse_if parse_make_expr parse_close_expr parse_panic_expr
      parse_recover parse_receive_expr parse_list_or_word parse_map_or_word parse_bracketed
      parse_parenthesised parse_function_literal parse_untyped_composite_literal
      parse_shorthand_method_call parse_return_expr unexpected_token
  primary_case token_integer = parse_integer_literal
  primary_case token_float = parse_float_literal self
  primary_case token_string = parse_string_literal
  primary_case token_string_raw = parse_raw_string_literal
  primary_case token_string_head = parse_interpolated_string_literal self
  primary_case token_true = parse_boolean_literal
  primary_case token_false = parse_boolean_literal
  primary_case token_identifier = parse_named
  primary_case token_empty = parse_empty_or_word
  primary_case token_discard = do t ← advance; pure (discard_expr t)
  primary_case token_error = parse_error_or_word
  primary_case token_if = parse_if
  primary_case token_make = parse_make_expr
  primary_case token_close = parse_close_expr
  primary_case token_panic = parse_panic_expr
  primary_case token_recover = parse_recover
  primary_case token_receive = parse_receive_expr
  primary_case token_list = parse_list_or_word
  primary_case token_map = parse_map_or_word
  primary_case token_lbracket = parse_bracketed
  primary_case token_lparen = parse_parenthesised
  primary_case token_func = parse_function_literal self
  primary_case token_lbrace = parse_untyped_composite_literal self
  primary_case token_dot = parse_shorthand_method_call
  primary_case token_return = parse_return_expr
  primary_case other = unexpected_token

  unfoldable pub parse_primary_expr : M Expression
  unfolding peek_token primary_case
  parse_primary_expr = do t ← peek_token; primary_case t.type
