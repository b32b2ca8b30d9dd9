-- ===== src/Parser/Postfix.antt =====
-- internal/parser/parser_expr.go: `parsePostfixExpr`.
use kukicha.Prelude.{ℕ, zero, suc, [], ◌∷◌, ◌++◌, codes, ltb, if◌then◌else◌, Option, none, some}
use kukicha.Token.{
  token_lparen, token_rparen, token_dot, token_lbrace, token_rbrace, token_lbracket, token_rbracket,
  token_colon, token_as,
}
use kukicha.Ast.Types.{Identifier, named_type}
use kukicha.Ast.Trees.{
  Expression, identifier, call_expr, method_call_expr, field_access_expr, index_expr, slice_expr,
  struct_literal_expr, type_cast_expr, type_assertion_expr, no_expression, an_expression,
}
use kukicha.Parser.State.{M, ◌>>=◌, ◌>>◌, pure, no_fuel}
use kukicha.Parser.Cursor.{advance, check, matches, consume, previous_token}
use kukicha.Parser.Parsers.{Parsers, parse_type}
use kukicha.Parser.Literals.{parse_identifier}
use kukicha.Parser.Arguments.{parse_call_arguments, parse_braced_values}
use kukicha.Parser.Primary.{parse_primary_expr}

-- `expr.(*ast.Identifier)`
abbrev pub as_identifier : Expression → Option Identifier
as_identifier (identifier i) = some i
as_identifier _ = none

module _ (self : Parsers) where
  unfoldable pub parse_arguments_of : Expression → M Expression
  unfolding parse_call_arguments consume previous_token
  parse_arguments_of function = do
    args ← parse_call_arguments self
    consume token_rparen (codes "expected ')' after arguments")
    token ← previous_token
    pure (call_expr token function args.positional args.named_arguments args.variadic)

  -- `pkg.Type{…}`, at the brace.
  unfoldable pub parse_qualified_literal : Identifier → Identifier → M Expression
  unfolding advance parse_braced_values consume
  parse_qualified_literal pkg name = do
    open_brace ← advance
    fields ← parse_braced_values self
    close_brace ← consume token_rbrace (codes "expected '}' after struct literal")
    let type = named_type pkg.token (pkg.value ++ (codes "." ++ name.value))
    pure (struct_literal_expr pkg.token type fields (ltb open_brace.line close_brace.line))

  -- What follows a dot: a type assertion, a method call, a literal or a field.
  unfoldable pub parse_selector : Expression → M Expression
  unfolding previous_token check advance parse_type consume parse_identifier parse_call_arguments
      parse_qualified_literal
  parse_selector e = do
    dot ← previous_token
    assertion ← check token_lparen
    if assertion
        then (do
          advance
          target ← parse_type self
          consume token_rparen (codes "expected ')' after type assertion")
          pure (type_assertion_expr dot e target))
        else do
          method ← parse_identifier
          called ← check token_lparen
          brace ← check token_lbrace
          if called
              then (do
                advance
                args ← parse_call_arguments self
                consume token_rparen (codes "expected ')' after arguments")
                pure (
                    method_call_expr dot (an_expression e) method args.positional
                      args.named_arguments args.variadic))
              else if brace
              then elim (as_identifier e) [
                | some pkg ↦ parse_qualified_literal pkg method
                | none ↦ pure (field_access_expr dot (an_expression e) method)
              ]
              else pure (field_access_expr dot (an_expression e) method)

  -- What follows a bracket: an index or a slice.
  unfoldable pub parse_index : Expression → M Expression
  unfolding check advance consume previous_token matches
  parse_index e = do
    from_start ← check token_colon
    if from_start
        then (do
          advance
          last ← self.parse_expression
          consume token_rbracket (codes "expected ']' after slice")
          token ← previous_token
          pure (slice_expr token e no_expression (an_expression last)))
        else do
          first ← self.parse_expression
          sliced ← matches (token_colon ∷ [])
          if sliced
              then (do
                to_end ← check token_rbracket
                last ←
                    (if to_end
                      then pure no_expression
                      else do l ← self.parse_expression; pure (an_expression l))
                consume token_rbracket (codes "expected ']' after slice")
                token ← previous_token
                pure (slice_expr token e (an_expression first) last))
              else do
                consume token_rbracket (codes "expected ']' after index")
                token ← previous_token
                pure (index_expr token e first)

  unfoldable pub parse_cast : Expression → M Expression
  unfolding previous_token parse_type
  parse_cast e = do
    token ← previous_token
    target ← parse_type self
    pure (type_cast_expr token e target)

  -- The loop of `parsePostfixExpr`.
  unfoldable pub more_postfix : Expression → ℕ → M Expression
  unfolding matches parse_arguments_of parse_selector parse_index parse_cast
  more_postfix e zero = no_fuel
  more_postfix e (suc fuel) = do
    called ← matches (token_lparen ∷ [])
    if called then (do next ← parse_arguments_of e; more_postfix next fuel) else do
      dot ← matches (token_dot ∷ [])
      if dot then (do next ← parse_selector e; more_postfix next fuel) else do
        bracket ← matches (token_lbracket ∷ [])
        if bracket then (do next ← parse_index e; more_postfix next fuel) else do
          cast ← matches (token_as ∷ [])
          if cast then (do next ← parse_cast e; more_postfix next fuel) else pure e

  unfoldable pub parse_postfix_expr : M Expression
  unfolding parse_primary_expr more_postfix
  parse_postfix_expr = do e ← parse_primary_expr self; more_postfix e self.fuel
