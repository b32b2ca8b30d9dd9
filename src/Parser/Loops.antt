-- ===== src/Parser/Loops.antt =====
-- internal/parser/parser_stmt.go: `for`, `defer` and `go`.
use kukicha.Prelude.{
  Bool, true, false, ◌&&◌, ◌||◌, [], ◌∷◌, codes, if◌then◌else◌, Option, none, some,
}
use kukicha.Token.{
  Token, token_indent, token_newline, token_identifier, token_comma, token_in, token_from,
  token_through, token_to,
}
use kukicha.Ast.Types.{Identifier}
use kukicha.Ast.Trees.{
  Expression, call_expr, method_call_expr, boolean_literal, no_expression, an_expression, Block,
  no_block, a_block, Statement, for_range_stmt, for_numeric_stmt, for_condition_stmt, defer_stmt,
  go_stmt, nil_defer_stmt, nil_go_stmt,
}
use kukicha.Parser.State.{Parser, M, ◌>>=◌, ◌>>◌, pure, add_error}
use kukicha.Parser.Cursor.{advance, check, matches, consume, skip_newlines, previous_token}
use kukicha.Parser.Parsers.{Parsers}
use kukicha.Parser.Literals.{named, parse_identifier}

-- `expr.(type)` of a call, which `defer` and `go` want.
abbrev is_call : Expression → Bool
is_call (call_expr t f es ns v) = true
is_call (method_call_expr t o m es ns v) = true
is_call _ = false

module _ (self : Parsers) where
  unfoldable pub parse_loop_body : M Block
  unfolding skip_newlines
  parse_loop_body = do skip_newlines; self.parse_block

  unfoldable pub parse_condition_loop : Token → M Statement
  unfolding parse_loop_body
  parse_condition_loop token = do
    condition ← self.parse_expression
    body ← parse_loop_body
    pure (for_condition_stmt token condition body)

  unfoldable pub parse_range_loop : Token → Identifier → Option Identifier → M Statement
  unfolding parse_loop_body
  parse_range_loop token variable index = do
    collection ← self.parse_expression
    body ← parse_loop_body
    pure (for_range_stmt token variable index collection body)

  unfoldable pub parse_numeric_loop : Token → Identifier → M Statement
  unfolding matches consume parse_loop_body
  parse_numeric_loop token variable = do
    start ← self.parse_expression
    through ← matches (token_through ∷ [])
    if through
        then pure tt
        else consume token_to (codes "expected 'to' or 'through' after start value") >> pure tt
    last ← self.parse_expression
    body ← parse_loop_body
    pure (for_numeric_stmt token variable start last through body)

  -- The loop behind its first identifier, or, from the parser `saved`, one with a condition.
  unfoldable pub parse_named_loop : Token → Parser → M Statement
  unfolding previous_token matches parse_range_loop parse_identifier consume parse_numeric_loop
      parse_condition_loop
  parse_named_loop token saved = do
    t ← previous_token
    within ← matches (token_in ∷ [])
    if within then parse_range_loop token (named t t.lexeme) none else do
      comma ← matches (token_comma ∷ [])
      if comma
          then (do
            second ← parse_identifier
            consume token_in (codes "expected 'in' after variable list")
            parse_range_loop token second (some (named t t.lexeme)))
          else do
            numeric ← matches (token_from ∷ [])
            if numeric then parse_numeric_loop token (named t t.lexeme) else λ p.
                parse_condition_loop token (record p { before = saved.before; rest = saved.rest })

  -- `parseForStmt` behind `for`, if a condition or a variable follows.
  unfoldable pub parse_headed_loop : Token → M Statement
  unfolding matches parse_named_loop parse_condition_loop
  parse_headed_loop token saved =
      (do
        word ← matches (token_identifier ∷ [])
        if word then parse_named_loop token saved else λ p.
            parse_condition_loop token (record p { before = saved.before; rest = saved.rest }))
        saved

  unfoldable pub parse_for_stmt : M Statement
  unfolding advance check parse_loop_body parse_headed_loop
  parse_for_stmt = do
    token ← advance
    newline ← check token_newline
    indent ← check token_indent
    if newline || indent
        then (do
          body ← parse_loop_body
          pure (for_condition_stmt token (boolean_literal token true) body))
        else parse_headed_loop token

  unfoldable pub parse_defer_stmt : M Statement
  unfolding advance skip_newlines check add_error
  parse_defer_stmt = do
    token ← advance
    skip_newlines
    indent ← check token_indent
    if indent
        then (do
          block ← self.parse_block
          skip_newlines
          pure (defer_stmt token no_expression (a_block block)))
        else do
          e ← self.parse_expression
          if is_call e
              then (do skip_newlines; pure (defer_stmt token (an_expression e) no_block))
              else do
                add_error token (codes "defer must be followed by a function call")
                pure nil_defer_stmt

  -- The call behind `go`.
  unfoldable pub parse_go_call : Token → M Statement
  unfolding skip_newlines add_error
  parse_go_call token = do
    e ← self.parse_expression
    if is_call e then (do skip_newlines; pure (go_stmt token (an_expression e) no_block)) else do
      add_error token (codes "go must be followed by a function call or indented block")
      pure nil_go_stmt

  unfoldable pub parse_go_stmt : M Statement
  unfolding advance check skip_newlines parse_go_call
  parse_go_stmt = do
    token ← advance
    newline ← check token_newline
    indent ← check token_indent
    if newline || indent then skip_newlines else pure tt
    indented ← check token_indent
    if (newline || indent) && indented
        then (do
          block ← self.parse_block
          skip_newlines
          pure (go_stmt token no_expression (a_block block)))
        else parse_go_call token
