-- ===== src/Parser/Assignments.antt =====
-- internal/parser/parser_stmt.go: assignments, declarations with `:=`, and statements of one
-- expression.
use kukicha.Prelude.{
  ℕ, zero, suc, Bool, false, ◌&&◌, ◌||◌, List, [], ◌∷◌, codes, if◌then◌else◌, Option, none, some,
  rest_of,
}
use kukicha.Token.{
  Token, TokenType, is_type, token_identifier, token_empty, token_error, token_newline,
  token_comment, token_comma, token_assign, token_walrus, token_bit_and_assign, token_plus_plus,
  token_minus_minus, token_onerr,
}
use kukicha.Ast.Types.{Identifier}
use kukicha.Ast.Trees.{
  Expression, identifier, Expressions, no_expressions, and_expression, MaybeOnErr, no_onerr,
  an_onerr, var_decl_stmt, assign_stmt, inc_dec_stmt, expression_stmt, MaybeStatement, no_statement,
  a_statement,
}
use kukicha.Parser.State.{done, panicked, out_of_fuel, M, ◌>>=◌, ◌>>◌, pure, no_fuel, add_error}
use kukicha.Parser.Cursor.{peek_token, check, matches, previous_token, skip_newlines, one_of}
use kukicha.Parser.Parsers.{Parsers}
use kukicha.Parser.Literals.{named}
use kukicha.Parser.Arguments.{parse_expression_list}
use kukicha.Parser.Postfix.{as_identifier}
use kukicha.Parser.OnErr.{parse_onerr_clause}

abbrev pub word_types : List TokenType
word_types = token_identifier ∷ token_empty ∷ token_error ∷ []

-- Where the loop of `checkMultiValueAssignment` stands: behind the first identifier, behind a comma,
-- or behind a later identifier.
pub data Expected : Type 0 where
  first_comma : Expected
  identifier_next : Expected
  comma_or_operator : Expected

abbrev meets : Expected → TokenType → Bool
meets first_comma t = is_type token_comma t
meets identifier_next t = one_of word_types t
meets comma_or_operator t = is_type token_comma t

abbrev after_met : Expected → Expected
after_met first_comma = identifier_next
after_met identifier_next = comma_or_operator
after_met comma_or_operator = identifier_next

abbrev ends_names : Expected → TokenType → Bool
ends_names comma_or_operator t = is_type token_assign t || is_type token_walrus t
ends_names _ t = false

unfoldable pub names_ahead : Expected → List Token → Bool
names_ahead e [] = false
names_ahead e (t ∷ ts) =
    let skipped = names_ahead e ts in
    let next = names_ahead (after_met e) ts in
    if is_type token_newline t.type || is_type token_comment t.type
    then skipped
    else if meets e t.type
    then next
    else ends_names e t.type

unfoldable pub check_multi_value_assignment : M Bool
unfolding peek_token names_ahead
check_multi_value_assignment = do
  t ← peek_token
  λ p. done (one_of word_types t.type && names_ahead first_comma (rest_of p.rest)) p

-- `defer` sets the flag back, however the parser `m` returns.
unfoldable pub without_inline_onerr : {A : Type 0} → M A → M A
without_inline_onerr m p = elim (m (record p { allow_inline_onerr = false })) [
  | done a q ↦ done a (record q { allow_inline_onerr = p.allow_inline_onerr })
  | panicked ↦ panicked
  | out_of_fuel ↦ out_of_fuel
]

abbrev names_as_targets : List Identifier → Expressions
names_as_targets [] = no_expressions
names_as_targets (i ∷ is) = and_expression (identifier i) (names_as_targets is)

module _ (self : Parsers) where
  unfoldable pub parse_statement_expression : M Expression
  unfolding without_inline_onerr
  parse_statement_expression = without_inline_onerr self.parse_expression

  unfoldable pub parse_statement_expression_list : M Expressions
  unfolding without_inline_onerr parse_expression_list
  parse_statement_expression_list = without_inline_onerr (parse_expression_list self)

  -- The clause that may follow.
  unfoldable pub parse_optional_onerr : M MaybeOnErr
  unfolding check parse_onerr_clause
  parse_optional_onerr = do
    found ← check token_onerr
    if found then (do c ← parse_onerr_clause self; pure (an_onerr c)) else pure no_onerr

  -- The names behind the first one; `none` is an error.
  unfoldable pub more_names : ℕ → M (Option (List Identifier))
  unfolding matches previous_token peek_token add_error
  more_names zero = no_fuel
  more_names (suc fuel) = do
    comma ← matches (token_comma ∷ [])
    if comma
        then (do
          word ← matches word_types
          if word
              then (do
                t ← previous_token
                rest ← more_names fuel
                elim rest [
                  | some names ↦ pure (some (named t t.lexeme ∷ names))
                  | none ↦ pure none
                ])
              else do
                t ← peek_token
                add_error t (codes "expected identifier after comma in multi-value assignment")
                pure none)
        else pure (some [])

  -- The operator and the values behind the names.
  unfoldable pub parse_names_assigned : List Identifier → M MaybeStatement
  unfolding matches previous_token parse_statement_expression_list parse_optional_onerr
      skip_newlines peek_token add_error
  parse_names_assigned names = do
    walrus ← matches (token_walrus ∷ [])
    if walrus
        then (do
          operator ← previous_token
          values ← parse_statement_expression_list
          onerr ← parse_optional_onerr
          skip_newlines
          pure (a_statement (var_decl_stmt names none values operator onerr)))
        else do
          assign ← matches (token_assign ∷ [])
          if assign
              then (do
                operator ← previous_token
                values ← parse_statement_expression_list
                onerr ← parse_optional_onerr
                skip_newlines
                pure (a_statement (assign_stmt (names_as_targets names) values operator onerr)))
              else do
                t ← peek_token
                add_error t
                    (codes "expected assignment operator (= or :=) in multi-value assignment")
                pure no_statement

  unfoldable pub parse_multi_value_assignment_stmt : M MaybeStatement
  unfolding matches peek_token add_error previous_token more_names parse_names_assigned
  parse_multi_value_assignment_stmt = do
    word ← matches word_types
    if word
        then (do
          t ← previous_token
          rest ← more_names self.fuel
          elim rest [
            | some names ↦ parse_names_assigned (named t t.lexeme ∷ names)
            | none ↦ pure no_statement
          ])
        else do
          t ← peek_token
          add_error t (codes "expected identifier in multi-value assignment")
          pure no_statement

  -- The clause of an assignment, which `&=` must not have.
  unfoldable pub parse_assignment_onerr : Token → M MaybeOnErr
  unfolding check peek_token add_error parse_onerr_clause parse_optional_onerr
  parse_assignment_onerr operator = do
    found ← check token_onerr
    if found && is_type token_bit_and_assign operator.type
        then (do
          t ← peek_token
          add_error t (codes "onerr is not supported with '&=' assignments")
          parse_onerr_clause self
          pure no_onerr)
        else parse_optional_onerr

  -- `:=` behind one expression.
  unfoldable pub parse_declaration_of : Expression → M MaybeStatement
  unfolding previous_token parse_statement_expression_list skip_newlines parse_optional_onerr
      add_error
  parse_declaration_of e = do
    operator ← previous_token
    elim (as_identifier e) [
      | some name ↦ parse_statement_expression_list >>= λ values.
          skip_newlines
          >> (parse_optional_onerr >>= λ onerr.
              skip_newlines
              >> pure (a_statement (var_decl_stmt (name ∷ []) none values operator onerr)))
      | none ↦
          add_error operator (codes "walrus operator can only be used with identifiers")
          >> pure no_statement
    ]

  unfoldable pub parse_simple_stmt : M MaybeStatement
  unfolding parse_statement_expression matches previous_token skip_newlines
      parse_statement_expression_list parse_assignment_onerr parse_declaration_of
      parse_optional_onerr
  parse_simple_stmt = do
    e ← parse_statement_expression
    counted ← matches (token_plus_plus ∷ token_minus_minus ∷ [])
    if counted
        then (do
          operator ← previous_token
          skip_newlines
          pure (a_statement (inc_dec_stmt operator e operator.lexeme)))
        else do
          assigned ← matches (token_assign ∷ token_bit_and_assign ∷ [])
          if assigned
              then (do
                operator ← previous_token
                values ← parse_statement_expression_list
                skip_newlines
                onerr ← parse_assignment_onerr operator
                skip_newlines
                pure (
                    a_statement
                      (assign_stmt (and_expression e no_expressions) values operator onerr)))
              else do
                declared ← matches (token_walrus ∷ [])
                if declared then parse_declaration_of e else do
                  skip_newlines
                  onerr ← parse_optional_onerr
                  skip_newlines
                  pure (a_statement (expression_stmt e onerr))

  unfoldable pub parse_expression_or_assignment_stmt : M MaybeStatement
  unfolding check_multi_value_assignment parse_multi_value_assignment_stmt parse_simple_stmt
  parse_expression_or_assignment_stmt = do
    several ← check_multi_value_assignment
    if several then parse_multi_value_assignment_stmt else parse_simple_stmt
