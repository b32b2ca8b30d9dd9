-- ===== src/Parser/Statements.antt =====
-- internal/parser/parser_stmt.go: `parseStatement` and `parseBlock`.
use kukicha.Prelude.{
  zero, suc, Bool, true, false, ◌&&◌, ◌||◌, List, [], ◌∷◌, Bytes, codes, if◌then◌else◌, Option,
  none, some, ℤ, pos, negsuc,
}
use kukicha.Token.{
  Token, TokenType, is_type, token_indent, token_dedent, token_newline, token_eof, token_lparen,
  token_rparen, token_semicolon, token_else, token_if, token_receive, token_send, token_identifier,
  token_comma, token_walrus, token_to,
}
use kukicha.Ast.Types.{named_type}
use kukicha.Ast.Trees.{
  Expression, type_cast_expr, MaybeExpression, no_expression, an_expression, no_expressions,
  Statement, return_stmt, continue_stmt, break_stmt, if_stmt, else_stmt, select_stmt, send_stmt,
  MaybeStatement, no_statement, a_statement, SelectCases, no_select_cases, and_select_case,
  no_otherwise,
}
use kukicha.Parser.State.{Parser, done, M, ◌>>=◌, ◌>>◌, pure, add_error}
use kukicha.Parser.Cursor.{
  peek_token, is_at_end, advance, check, matches, consume, skip_newlines, one_of, step_over,
}
use kukicha.Parser.Parsers.{Parsers}
use kukicha.Parser.Literals.{named}
use kukicha.Parser.Arguments.{parse_expression_list}
use kukicha.Parser.Primary.{parse_receive_expr}
use kukicha.Parser.Switches.{parse_branches, parse_switch_body, parse_type_switch_body}
use kukicha.Parser.Assignments.{parse_expression_or_assignment_stmt}

abbrev line_ends : List TokenType
line_ends = token_newline ∷ token_eof ∷ token_indent ∷ token_dedent ∷ []

abbrev deeper : ℤ → ℤ
deeper (pos n) = pos (suc n)
deeper (negsuc zero) = pos 0
deeper (negsuc (suc n)) = negsuc n

abbrev shallower : ℤ → ℤ
shallower (pos zero) = negsuc 0
shallower (pos (suc n)) = pos n
shallower (negsuc n) = negsuc (suc n)

abbrev is_level : ℤ → Bool
is_level (pos zero) = true
is_level _ = false

-- Puts `t` in front of the tokens, if there are any.
abbrev behind : Token → Option (List Token) → Option (List Token)
behind t none = none
behind t (some ts) = some (t ∷ ts)

-- Both loops that look for the semicolon behind an init: the tokens with its type set to NEWLINE, or
-- nothing if the line has no semicolon outside parentheses.
unfoldable pub mark_semicolon : ℤ → List Token → Option (List Token)
mark_semicolon depth [] = none
mark_semicolon depth (t ∷ ts) =
    let opened = behind t (mark_semicolon (deeper depth) ts) in
    let closed = behind t (mark_semicolon (shallower depth) ts) in
    let next = behind t (mark_semicolon depth ts) in
    if one_of line_ends t.type
    then none
    else if is_type token_lparen t.type
    then opened
    else if is_type token_rparen t.type
    then closed
    else if is_type token_semicolon t.type && is_level depth
    then some (record t { type = token_newline } ∷ ts)
    else next

-- The loop over the newline that was put in, and those behind it.
raw_newlines : List Token → Parser → Parser
raw_newlines [] p = p
raw_newlines (t ∷ ts) p =
    let next = raw_newlines ts (step_over t ts p) in
    if is_type token_newline t.type then next else p

module _ (self : Parsers) where
  -- The values of a `return` statement.
  unfoldable pub parse_return_stmt : M Statement
  unfolding advance check is_at_end parse_expression_list skip_newlines
  parse_return_stmt = do
    token ← advance
    newline ← check token_newline
    dedent ← check token_dedent
    end ← is_at_end
    values ← (if newline || dedent || end then pure no_expressions else parse_expression_list self)
    skip_newlines
    pure (return_stmt token values)

  unfoldable pub parse_continue_stmt : M Statement
  unfolding advance skip_newlines
  parse_continue_stmt = do token ← advance; skip_newlines; pure (continue_stmt token)

  unfoldable pub parse_break_stmt : M Statement
  unfolding advance skip_newlines
  parse_break_stmt = do token ← advance; skip_newlines; pure (break_stmt token)

  -- The init, if the line has one, and the condition.
  unfoldable pub parse_condition : M (MaybeStatement × Expression)
  unfolding mark_semicolon parse_expression_or_assignment_stmt raw_newlines
  parse_condition p = elim (mark_semicolon (pos 0) p.rest) [
    | some marked ↦
        (do
          init ← parse_expression_or_assignment_stmt self
          λ q. done tt (raw_newlines q.rest q)
          condition ← self.parse_expression
          pure (init, condition))
          (record p { rest = marked })
    | none ↦ (do condition ← self.parse_expression; pure (no_statement, condition)) p
  ]

  -- What follows the block of an `if`.
  unfoldable pub parse_alternative : M MaybeStatement
  unfolding check advance skip_newlines
  parse_alternative = do
    found ← check token_else
    if found
        then (do
          token ← advance
          skip_newlines
          chained ← check token_if
          if chained
              then (do s ← self.parse_if_stmt; pure (a_statement s))
              else do body ← self.parse_block; pure (a_statement (else_stmt token body)))
        else pure no_statement

  -- `parseIfStmt`
  unfoldable pub parse_if_statement : M Statement
  unfolding advance parse_condition skip_newlines parse_alternative
  parse_if_statement = do
    token ← advance
    (init, condition) ← parse_condition
    skip_newlines
    consequence ← self.parse_block
    skip_newlines
    alternative ← parse_alternative
    skip_newlines
    pure (if_stmt token init condition consequence alternative)

  -- A type switch is read as a cast to a named type.
  unfoldable pub parse_switch_of : Token → MaybeExpression → M Statement
  unfolding parse_type_switch_body parse_switch_body
  parse_switch_of token (an_expression (type_cast_expr t e (named_type n name))) =
      parse_type_switch_body self token e (named n name)
  parse_switch_of token e = parse_switch_body self token e

  unfoldable pub parse_switch_or_type_switch_stmt : M Statement
  unfolding advance check is_at_end parse_switch_of
  parse_switch_or_type_switch_stmt = do
    token ← advance
    newline ← check token_newline
    indent ← check token_indent
    end ← is_at_end
    value ←
        (if newline || indent || end
          then pure no_expression
          else do e ← self.parse_expression; pure (an_expression e))
    parse_switch_of token value

  unfoldable pub parse_send_stmt : M Statement
  unfolding advance consume skip_newlines
  parse_send_stmt = do
    token ← advance
    value ← self.parse_expression
    consume token_to (codes "expected 'to' after value in send statement")
    channel ← self.parse_expression
    skip_newlines
    pure (send_stmt token value channel)

  -- The bindings in front of `receive`.
  unfoldable pub parse_bindings : M (List Bytes)
  unfolding advance matches consume
  parse_bindings = do
    first ← advance
    comma ← matches (token_comma ∷ [])
    if comma
        then (do
          second ←
              consume token_identifier (codes "expected identifier after ',' in select binding")
          consume token_walrus (codes "expected ':=' after binding in select case")
          pure (first.lexeme ∷ second.lexeme ∷ []))
        else do
          consume token_walrus (codes "expected ':=' after binding in select case")
          pure (first.lexeme ∷ [])

  -- The body of a case, in front of which newlines may stand.
  unfoldable pub with_body : Token → List Bytes → MaybeExpression → M (SelectCases → SelectCases)
  unfolding skip_newlines
  with_body token bindings recv = do
    skip_newlines
    body ← self.parse_block
    pure (and_select_case token bindings recv no_statement body)

  unfoldable pub parse_select_case : Token → M (SelectCases → SelectCases)
  unfolding check parse_receive_expr parse_send_stmt parse_bindings with_body peek_token add_error
  parse_select_case token = do
    receives ← check token_receive
    sends ← check token_send
    binds ← check token_identifier
    if receives
        then (do r ← parse_receive_expr self; with_body token [] (an_expression r))
        else if sends
        then (do
          s ← parse_send_stmt
          body ← self.parse_block
          pure (and_select_case token [] no_expression (a_statement s) body))
        else if binds
        then (do
          names ← parse_bindings
          r ← parse_receive_expr self
          with_body token names (an_expression r))
        else do
          t ← peek_token
          add_error t (codes "expected 'receive', 'send', or binding in select case")
          with_body token [] no_expression

  unfoldable pub parse_select_stmt : M Statement
  unfolding advance skip_newlines matches peek_token add_error parse_branches parse_select_case
      consume
  parse_select_stmt = do
    token ← advance
    skip_newlines
    indent ← matches (token_indent ∷ [])
    if indent
        then (do
          (cases, o) ←
              parse_branches self parse_select_case no_select_cases
                (codes "select can only have one otherwise branch")
                (codes "expected 'when' or 'otherwise' in select block") no_otherwise self.fuel
          consume token_dedent (codes "expected dedent after select block")
          skip_newlines
          pure (select_stmt token cases o))
        else do
          t ← peek_token
          add_error t (codes "expected indented block after select")
          pure (select_stmt token no_select_cases no_otherwise)
