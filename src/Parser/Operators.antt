-- ===== src/Parser/Operators.antt =====
-- internal/parser/parser_expr.go: the levels of precedence, from `parseUnaryExpr` up to
-- `parseExpression`.
use kukicha.Prelude.{
  ℕ, zero, suc, Bool, false, ◌&&◌, ◌||◌, List, [], ◌∷◌, Bytes, codes, ltb, if◌then◌else◌, none,
  some,
}
use kukicha.Token.{
  Token, TokenType, is_type, token_as, token_not, token_bang, token_minus, token_bit_and,
  token_reference, token_of, token_dereference, token_star, token_slash, token_percent, token_plus,
  token_double_equals, token_not_equals, token_lt, token_gt, token_lte, token_gte, token_equals,
  token_isnt, token_in, token_is, token_bit_or, token_and, token_and_and, token_pipe, token_switch,
  token_or, token_or_or, token_onerr,
}
use kukicha.Ast.Trees.{
  Expression, binary_expr, is_expr, unary_expr, pipe_expr, address_of_expr, deref_expr,
  piped_switch_expr, onerr_expr, no_expression,
}
use kukicha.Parser.State.{done, M, ◌>>=◌, ◌>>◌, pure, no_fuel}
use kukicha.Parser.Cursor.{peek_next_token, advance, check, matches, previous_token}
use kukicha.Parser.Parsers.{Parsers}
use kukicha.Parser.Literals.{parse_identifier}
use kukicha.Parser.Switches.{parse_switch_body, parse_type_switch_body}
use kukicha.Parser.Postfix.{parse_postfix_expr}

module _ (self : Parsers) where
  -- The operators behind the first one, of `parseUnaryExpr`.
  unfoldable pub parse_dereference : M Expression
  unfolding matches previous_token parse_postfix_expr
  parse_dereference = do
    deref ← matches (token_dereference ∷ [])
    if deref
        then (do
          token ← previous_token
          operand ← self.parse_unary_expr
          pure (deref_expr token operand))
        else parse_postfix_expr self

  -- `p.pos = saved`, for a position before the present one.
  unfoldable pub back_to : List Token → List Token → M (Unit {0})
  back_to before rest p = done tt (record p { before = before; rest = rest })

  unfoldable pub parse_reference : M Expression
  unfolding matches previous_token back_to parse_dereference
  parse_reference p =
      let saved = p in
      (do
        reference ← matches (token_reference ∷ [])
        if reference
            then (do
              token ← previous_token
              of ← matches (token_of ∷ [])
              if of
                  then (do operand ← self.parse_unary_expr; pure (address_of_expr token operand))
                  else do back_to saved.before saved.rest; parse_dereference)
            else parse_dereference)
        p

  unfoldable pub parse_unary : M Expression
  unfolding matches previous_token parse_reference
  parse_unary = do
    sign ← matches (token_not ∷ token_bang ∷ token_minus ∷ [])
    if sign
        then (do
          operator ← previous_token
          right ← self.parse_unary_expr
          pure (unary_expr operator operator.lexeme right))
        else do
          address ← matches (token_bit_and ∷ [])
          if address
              then (do
                token ← previous_token
                operand ← self.parse_unary_expr
                pure (address_of_expr token operand))
              else parse_reference

-- A level whose operators, `ks`, associate to the left, over the level `next`.
module _ (ks : List TokenType) (next : M Expression) where
  unfoldable pub more_operands : Expression → ℕ → M Expression
  unfolding matches previous_token
  more_operands left zero = no_fuel
  more_operands left (suc fuel) = do
    found ← matches ks
    if found
        then (do
          operator ← previous_token
          right ← next
          more_operands (binary_expr operator left operator.lexeme right) fuel)
        else pure left

  unfoldable pub parse_left_level : ℕ → M Expression
  unfolding more_operands
  parse_left_level fuel = do left ← next; more_operands left fuel

abbrev multiplicative_operators : List TokenType
multiplicative_operators = token_star ∷ token_slash ∷ token_percent ∷ []

abbrev additive_operators : List TokenType
additive_operators = token_plus ∷ token_minus ∷ []

abbrev comparison_operators : List TokenType
comparison_operators =
    token_double_equals ∷ token_not_equals ∷ token_lt ∷ token_gt ∷ token_lte ∷ token_gte
    ∷ token_equals ∷ token_isnt ∷ []

abbrev line_breaks : List Token → Bool
line_breaks (t ∷ u ∷ ts) = ltb u.line t.line
line_breaks _ = false

-- What a round of `parseComparisonExpr` finds.
pub data Comparison : Type 0 where
  an_operator : Token → Comparison
  a_case : Token → Comparison
  no_comparison : Comparison

-- `not`, and a token of type `k` behind it.
unfoldable pub negated : TokenType → M Bool
unfolding check peek_next_token
negated k = do
  negation ← check token_not
  next ← peek_next_token
  pure (negation && is_type k next.type)

-- The two tokens of a negated operator, with its text.
unfoldable pub advance_negated : Bytes → M Comparison
unfolding advance
advance_negated text = do
  operator ← advance
  advance
  pure (an_operator (record operator { lexeme = text }))

unfoldable pub parse_comparison_operator : M Comparison
unfolding matches previous_token negated advance_negated
parse_comparison_operator = do
  symbol ← matches comparison_operators
  if symbol then (do t ← previous_token; pure (an_operator t)) else do
    not_equals ← negated token_equals
    if not_equals then advance_negated (codes "not equals") else do
      membership ← matches (token_in ∷ [])
      if membership then (do t ← previous_token; pure (an_operator t)) else do
        not_in ← negated token_in
        if not_in then advance_negated (codes "not in") else do
          is ← matches (token_is ∷ [])
          if is then (do t ← previous_token; pure (a_case t)) else pure no_comparison

-- `EXPR is Case`, behind `is`.
unfoldable pub parse_is : Token → Expression → M Expression
unfolding parse_identifier matches
parse_is token value = do
  name ← parse_identifier
  binds ← matches (token_as ∷ [])
  if binds
      then (do binding ← parse_identifier; pure (is_expr token value name (some binding)))
      else pure (is_expr token value name none)

module _ (self : Parsers) where
  unfoldable pub parse_multiplicative_expr : M Expression
  unfolding parse_left_level parse_unary
  parse_multiplicative_expr = parse_left_level multiplicative_operators (parse_unary self) self.fuel

  unfoldable pub parse_additive_expr : M Expression
  unfolding parse_left_level parse_multiplicative_expr
  parse_additive_expr = parse_left_level additive_operators parse_multiplicative_expr self.fuel

  -- The loop of `parseComparisonExpr`.
  unfoldable pub more_comparisons : Expression → ℕ → M Expression
  unfolding parse_comparison_operator parse_additive_expr parse_is
  more_comparisons left zero = no_fuel
  more_comparisons left (suc fuel) = do
    found ← parse_comparison_operator
    elim found [
      | an_operator t ↦
          parse_additive_expr >>= λ right. more_comparisons (binary_expr t left t.lexeme right) fuel
      | a_case t ↦ parse_is t left >>= λ e. more_comparisons e fuel
      | no_comparison ↦ pure left
    ]

  unfoldable pub parse_comparison_expr : M Expression
  unfolding parse_additive_expr more_comparisons
  parse_comparison_expr = do left ← parse_additive_expr; more_comparisons left self.fuel

  unfoldable pub parse_bitwise_and_expr : M Expression
  unfolding parse_left_level parse_comparison_expr
  parse_bitwise_and_expr = parse_left_level (token_bit_and ∷ []) parse_comparison_expr self.fuel

  unfoldable pub parse_bitwise_or_expr : M Expression
  unfolding parse_left_level parse_bitwise_and_expr
  parse_bitwise_or_expr = parse_left_level (token_bit_or ∷ []) parse_bitwise_and_expr self.fuel

  unfoldable pub parse_and_expr : M Expression
  unfolding parse_left_level parse_bitwise_or_expr
  parse_and_expr = parse_left_level (token_and ∷ token_and_and ∷ []) parse_bitwise_or_expr self.fuel

  -- `p.pos >= 2 && p.tokens[p.pos-2].Line < operator.Line`, behind the operator.
  unfoldable pub crosses_line : M Bool
  crosses_line p = done (line_breaks p.before) p

  -- A piped switch, behind the pipe.
  unfoldable pub parse_piped_switch : Token → Expression → M Expression
  unfolding advance matches parse_identifier parse_type_switch_body parse_switch_body
  parse_piped_switch operator left = do
    token ← advance
    typed ← matches (token_as ∷ [])
    if typed
        then (do
          binding ← parse_identifier
          body ← parse_type_switch_body self token left binding
          pure (piped_switch_expr operator left body))
        else do
          body ← parse_switch_body self token no_expression
          pure (piped_switch_expr operator left body)

  -- The loop of `parsePipeExpr`, after a step that crossed a line if `multiline`.
  unfoldable pub more_pipes : Bool → Expression → ℕ → M Expression
  unfolding matches previous_token crosses_line check parse_piped_switch parse_and_expr
  more_pipes multiline left zero = no_fuel
  more_pipes multiline left (suc fuel) = do
    found ← matches (token_pipe ∷ [])
    if found
        then (do
          operator ← previous_token
          crossed ← crosses_line
          switched ← check token_switch
          next ←
              (if switched then parse_piped_switch operator left else do
                right ← parse_and_expr
                pure (pipe_expr operator left right (multiline || crossed)))
          more_pipes (multiline || crossed) next fuel)
        else pure left

  unfoldable pub parse_pipe_expr : M Expression
  unfolding parse_and_expr more_pipes
  parse_pipe_expr = do left ← parse_and_expr; more_pipes false left self.fuel

  unfoldable pub parse_or_expr : M Expression
  unfolding parse_left_level parse_pipe_expr
  parse_or_expr = parse_left_level (token_or ∷ token_or_or ∷ []) parse_pipe_expr self.fuel

  unfoldable pub parse_onerr_expr : M Expression
  unfolding parse_or_expr matches previous_token
  parse_onerr_expr = do
    left ← parse_or_expr
    found ← matches (token_onerr ∷ [])
    if found
        then (do
          token ← previous_token
          value ← self.parse_expression
          pure (onerr_expr token left value))
        else pure left

  -- `parseExpression`
  unfoldable pub parse_any_expression : M Expression
  unfolding parse_onerr_expr parse_or_expr
  parse_any_expression p = if p.allow_inline_onerr then parse_onerr_expr p else parse_or_expr p
