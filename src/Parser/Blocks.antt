-- ===== src/Parser/Blocks.antt =====
-- internal/parser/parser_stmt.go: `parseStatement` and `parseBlock`.
use kukicha.Prelude.{ℕ, zero, suc, ◌||◌, [], ◌∷◌, codes, if◌then◌else◌, Option, none, some}
use kukicha.Token.{
  TokenType, token_indent, token_dedent, token_return, token_if, token_switch, token_select,
  token_for, token_defer, token_go, token_send, token_continue, token_break, token_type,
}
use kukicha.Ast.Trees.{
  Block, block_stmt, Statement, type_decl_stmt, MaybeStatement, no_statement, a_statement,
  Statements, no_statements, and_statement, TypeDecl,
}
use kukicha.Parser.State.{M, ◌>>=◌, ◌>>◌, pure, no_fuel, add_error}
use kukicha.Parser.Cursor.{peek_token, is_at_end, check, matches, consume, skip_newlines}
use kukicha.Parser.Parsers.{Parsers}
use kukicha.Parser.TypeDecls.{parse_type_decl}
use kukicha.Parser.Assignments.{parse_expression_or_assignment_stmt}
use kukicha.Parser.Statements.{
  parse_return_stmt, parse_continue_stmt, parse_break_stmt, parse_if_statement,
  parse_switch_or_type_switch_stmt, parse_send_stmt, parse_select_stmt,
}
use kukicha.Parser.Loops.{parse_for_stmt, parse_defer_stmt, parse_go_stmt}

abbrev a_type_decl : Option TypeDecl → MaybeStatement
a_type_decl none = no_statement
a_type_decl (some d) = a_statement (type_decl_stmt d)

abbrev with_statement : MaybeStatement → Statements → Statements
with_statement no_statement ss = ss
with_statement (a_statement s) ss = and_statement s ss

abbrev returned : M Statement → M MaybeStatement
returned m = do s ← m; pure (a_statement s)

module _ (self : Parsers) where
  -- The switch of `parseStatement`.
  unfoldable pub statement_case : TokenType → M MaybeStatement
  unfolding parse_return_stmt parse_if_statement parse_switch_or_type_switch_stmt parse_select_stmt
      parse_for_stmt parse_defer_stmt parse_go_stmt parse_send_stmt parse_continue_stmt
      parse_break_stmt parse_type_decl parse_expression_or_assignment_stmt
  statement_case token_return = returned (parse_return_stmt self)
  statement_case token_if = returned (parse_if_statement self)
  statement_case token_switch = returned (parse_switch_or_type_switch_stmt self)
  statement_case token_select = returned (parse_select_stmt self)
  statement_case token_for = returned (parse_for_stmt self)
  statement_case token_defer = returned (parse_defer_stmt self)
  statement_case token_go = returned (parse_go_stmt self)
  statement_case token_send = returned (parse_send_stmt self)
  statement_case token_continue = returned (parse_continue_stmt self)
  statement_case token_break = returned (parse_break_stmt self)
  statement_case token_type = do d ← parse_type_decl self; pure (a_type_decl d)
  statement_case other = parse_expression_or_assignment_stmt self

  unfoldable pub parse_statement : M MaybeStatement
  unfolding skip_newlines peek_token statement_case
  parse_statement = do skip_newlines; t ← peek_token; statement_case t.type

  -- The loop of `parseBlock`.
  unfoldable pub parse_statements : ℕ → M Statements
  unfolding check is_at_end skip_newlines parse_statement
  parse_statements zero = no_fuel
  parse_statements (suc fuel) = do
    closed ← check token_dedent
    end ← is_at_end
    if closed || end then pure no_statements else do
      skip_newlines
      dedent ← check token_dedent
      if dedent
          then pure no_statements
          else do s ← parse_statement; rest ← parse_statements fuel; pure (with_statement s rest)

  -- `parseBlock`
  unfoldable pub parse_indented_block : M Block
  unfolding peek_token matches add_error parse_statements consume
  parse_indented_block = do
    token ← peek_token
    indent ← matches (token_indent ∷ [])
    if indent
        then (do
          ss ← parse_statements self.fuel
          consume token_dedent (codes "expected dedent after block")
          pure (block_stmt token ss))
        else do
          add_error token (codes "expected indented block or '{'")
          pure (block_stmt token no_statements)
