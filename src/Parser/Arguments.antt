-- ===== src/Parser/Arguments.antt =====
-- internal/parser: lists of expressions, arguments, field values, parameters and result types.
use kukicha.Prelude.{
  ℕ, zero, suc, Bool, true, false, not, ◌&&◌, ◌||◌, [], ◌∷◌, ◌++◌, codes, if◌then◌else◌, Option,
  none, some, is_some,
}
use kukicha.Token.{
  TokenType, is_type, token_rparen, token_many, token_identifier, token_colon, token_comma,
  token_rbrace, token_assign, token_lparen,
}
use kukicha.Ast.Types.{TypeAnnotation, named_type, TypeAnnotations, no_types, and_type}
use kukicha.Ast.Trees.{
  no_expression, an_expression, Expressions, no_expressions, and_expression, NamedArguments,
  no_named, and_named, FieldValues, no_values, and_value, KeyValuePairs, no_pairs, and_pair,
  Parameters, no_parameters, and_parameter,
}
use kukicha.Parser.State.{M, ◌>>=◌, ◌>>◌, pure, no_fuel, add_error}
use kukicha.Parser.Cursor.{peek_token, peek_next_token, advance, check, matches, consume}
use kukicha.Parser.Types.{more_results}
use kukicha.Parser.Parsers.{Parsers, parse_type}
use kukicha.Parser.Literals.{named, parse_identifier}

-- Positional and named arguments, and `variadic`.
pub record Arguments : Type 0 where
  pub positional : Expressions
  pub named_arguments : NamedArguments
  pub variadic : Bool

abbrev no_arguments : Bool → Arguments
no_arguments v = record { positional = no_expressions; named_arguments = no_named; variadic = v }

module _ (self : Parsers) where
  -- The loop of `parseExpressionList` behind the first expression.
  unfoldable pub more_expressions : ℕ → M Expressions
  unfolding matches
  more_expressions zero = no_fuel
  more_expressions (suc fuel) = do
    comma ← matches (token_comma ∷ [])
    if comma
        then (do e ← self.parse_expression; es ← more_expressions fuel; pure (and_expression e es))
        else pure no_expressions

  unfoldable pub parse_expression_list : M Expressions
  unfolding more_expressions
  parse_expression_list = do
    e ← self.parse_expression
    es ← more_expressions self.fuel
    pure (and_expression e es)

  -- A comma, and no closing token of type `k` behind it: another round of a loop that allows one
  -- comma too many.
  unfoldable pub continues : TokenType → M Bool
  unfolding matches check
  continues k = do
    comma ← matches (token_comma ∷ [])
    if comma then (do closed ← check k; pure (not closed)) else pure false

  -- The loop over elements that end at a token of type `k`.
  unfoldable pub parse_elements : TokenType → ℕ → M Expressions
  unfolding continues
  parse_elements k zero = no_fuel
  parse_elements k (suc fuel) = do
    e ← self.parse_expression
    more ← continues k
    if more
        then (do es ← parse_elements k fuel; pure (and_expression e es))
        else pure (and_expression e no_expressions)

  unfoldable pub parse_pairs : ℕ → M KeyValuePairs
  unfolding consume continues
  parse_pairs zero = no_fuel
  parse_pairs (suc fuel) = do
    key ← self.parse_expression
    consume token_colon (codes "expected ':' after map key")
    value ← self.parse_expression
    more ← continues token_rbrace
    if more
        then (do ps ← parse_pairs fuel; pure (and_pair key value ps))
        else pure (and_pair key value no_pairs)

  unfoldable pub parse_field_values : ℕ → M FieldValues
  unfolding parse_identifier consume continues
  parse_field_values zero = no_fuel
  parse_field_values (suc fuel) = do
    name ← parse_identifier
    consume token_colon (codes "expected ':' after field name")
    value ← self.parse_expression
    more ← continues token_rbrace
    if more
        then (do vs ← parse_field_values fuel; pure (and_value name value vs))
        else pure (and_value name value no_values)

  -- The values of a struct literal in braces, behind the opening one.
  unfoldable pub parse_braced_values : M FieldValues
  unfolding check parse_field_values
  parse_braced_values = do
    closed ← check token_rbrace
    if closed then pure no_values else parse_field_values self.fuel

  -- A round of the loop of `parseCallArguments`, in front of the arguments behind it. A named argument
  -- has been seen if `has_named`.
  unfoldable pub parse_arguments : Bool → Bool → ℕ → M Arguments
  unfolding matches check peek_next_token advance add_error peek_token continues
  parse_arguments variadic has_named zero = no_fuel
  parse_arguments variadic has_named (suc fuel) = do
    many ← matches (token_many ∷ [])
    let now = variadic || many
    word ← check token_identifier
    next ← peek_next_token
    if word && is_type token_colon next.type
        then (do
          name ← advance
          advance
          value ← self.parse_expression
          more ← continues token_rparen
          rest ← (if more then parse_arguments now true fuel else pure (no_arguments now))
          pure (record rest {
            named_arguments = and_named name (named name name.lexeme) value rest.named_arguments;
          }))
        else do
          if has_named
              then (do
                t ← peek_token
                add_error t (codes "positional argument cannot follow named argument"))
              else pure tt
          value ← self.parse_expression
          more ← continues token_rparen
          rest ← (if more then parse_arguments now has_named fuel else pure (no_arguments now))
          pure (record rest { positional = and_expression value rest.positional })

  unfoldable pub parse_call_arguments : M Arguments
  unfolding check parse_arguments
  parse_call_arguments = do
    closed ← check token_rparen
    if closed then pure (no_arguments false) else parse_arguments false false self.fuel

  -- The type of a parameter, unless a token follows in front of which there is none.
  unfoldable pub parse_parameter_type : M (Option TypeAnnotation)
  unfolding check parse_type
  parse_parameter_type = do
    comma ← check token_comma
    closed ← check token_rparen
    assign ← check token_assign
    if comma || closed || assign then pure none else do t ← parse_type self; pure (some t)

  -- The loop of `parseParameters`; a default value has been seen if `has_default`.
  unfoldable pub parse_parameter_list : Bool → ℕ → M Parameters
  unfolding check advance parse_identifier parse_parameter_type peek_token matches add_error
  parse_parameter_list has_default zero = no_fuel
  parse_parameter_list has_default (suc fuel) = do
    many ← check token_many
    if many then advance >> pure tt else pure tt
    name ← parse_identifier
    written ← parse_parameter_type
    t ← peek_token
    let type =
        if many && not (is_some written) then some (named_type t (codes "interface{}")) else written
    assign ← matches (token_assign ∷ [])
    value ←
        (if assign then (do e ← self.parse_expression; pure (an_expression e)) else do
          if has_default
              then add_error name.token (
                  codes "parameter '"
                  ++ (name.value
                      ++ codes
                          "' must have a default value (parameters with defaults must be contiguous at the end)"))
              else pure tt
          pure no_expression)
    if many && assign
        then add_error name.token
            (codes "variadic parameter '" ++ (name.value ++ codes "' cannot have a default value"))
        else pure tt
    comma ← matches (token_comma ∷ [])
    rest ← (if comma then parse_parameter_list (has_default || assign) fuel else pure no_parameters)
    pure (and_parameter name type many value rest)

  unfoldable pub parse_parameters : M Parameters
  unfolding check parse_parameter_list
  parse_parameters = do
    closed ← check token_rparen
    if closed then pure no_parameters else parse_parameter_list false self.fuel

  unfoldable pub parse_return_types : M TypeAnnotations
  unfolding check advance more_results consume parse_type
  parse_return_types = do
    several ← check token_lparen
    if several
        then (do
          advance
          ts ← more_results (parse_type self) self.fuel
          consume token_rparen (codes "expected ')' after return types")
          pure ts)
        else do t ← parse_type self; pure (and_type t no_types)
