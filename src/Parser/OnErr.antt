-- ===== src/Parser/OnErr.antt =====
-- internal/parser/parser_stmt.go: the clauses of `onerr`.
use kukicha.Prelude.{Bool, true, false, ◌&&◌, [], ◌∷◌, Bytes, codes, if◌then◌else◌}
use kukicha.Token.{
  Token, TokenType, is_type, token_string, token_string_head, token_return, token_continue,
  token_break, token_newline, token_dedent, token_eof, token_explain, token_as, token_identifier,
  token_indent,
}
use kukicha.Ast.Trees.{
  Expression, string_literal, block_expr, MaybeExpression, no_expression, an_expression,
  literal_part, Block, block_stmt, OnErrClause, onerr_clause,
}
use kukicha.Parser.State.{M, ◌>>=◌, ◌>>◌, pure, add_error}
use kukicha.Parser.Cursor.{peek_token, peek_next_token, advance, check, skip_newlines, one_of}
use kukicha.Parser.Parsers.{Parsers}

-- The static prefix of an interpolated text, unless the expression is another.
abbrev static_prefix : Bytes → Expression → Bytes
static_prefix other (string_literal t v raw interpolated (literal_part text ps)) = text
static_prefix other _ = other

abbrev clause : Token → MaybeExpression → Bytes → OnErrClause
clause token handler text = onerr_clause token handler text false false false []

abbrev with_alias : Bytes → OnErrClause → OnErrClause
with_alias alias (onerr_clause t h e r c b a) = onerr_clause t h e r c b alias

abbrev block_handler : Block → MaybeExpression
block_handler (block_stmt t ss) = an_expression (block_expr t (block_stmt t ss))

-- A keyword of type `k` that ends its line.
unfoldable pub is_bare : TokenType → M Bool
unfolding check peek_next_token
is_bare k = do
  word ← check k
  next ← peek_next_token
  pure (word && one_of (token_newline ∷ token_dedent ∷ token_eof ∷ []) next.type)

module _ (self : Parsers) where
  unfoldable pub parse_explain_string : M Bytes
  unfolding peek_token advance add_error
  parse_explain_string = do
    t ← peek_token
    if is_type token_string t.type
        then advance >> pure t.lexeme
        else if is_type token_string_head t.type
        then (do e ← self.parse_expression; pure (static_prefix t.lexeme e))
        else do add_error t (codes "expected string literal after 'explain'"); pure []

  unfoldable pub parse_handler : Token → M OnErrClause
  unfolding check advance parse_explain_string
  parse_handler token = do
    alone ← check token_explain
    if alone
        then (do advance; text ← parse_explain_string; pure (clause token no_expression text))
        else do
          handler ← self.parse_expression
          explained ← check token_explain
          if explained
              then (do
                advance
                text ← parse_explain_string
                pure (clause token (an_expression handler) text))
              else pure (clause token (an_expression handler) [])

  unfoldable pub parse_inline_onerr_handler : Token → M OnErrClause
  unfolding is_bare advance parse_handler
  parse_inline_onerr_handler token = do
    returns ← is_bare token_return
    if returns
        then (do advance; pure (onerr_clause token no_expression [] true false false []))
        else do
          continues ← is_bare token_continue
          if continues
              then (do advance; pure (onerr_clause token no_expression [] false true false []))
              else do
                breaks ← is_bare token_break
                if breaks
                    then (do
                      advance
                      pure (onerr_clause token no_expression [] false false true []))
                    else parse_handler token

  -- A block, or a handler on the line.
  unfoldable pub parse_onerr_body : Token → M OnErrClause
  unfolding skip_newlines check parse_inline_onerr_handler
  parse_onerr_body token = do
    skip_newlines
    indent ← check token_indent
    if indent
        then (do block ← self.parse_block; pure (clause token (block_handler block) []))
        else parse_inline_onerr_handler token

  unfoldable pub parse_onerr_clause : M OnErrClause
  unfolding advance check add_error parse_onerr_body
  parse_onerr_clause = do
    token ← advance
    named ← check token_as
    if named
        then (do
          advance
          alias ← advance
          if is_type token_identifier alias.type
              then (do body ← parse_onerr_body token; pure (with_alias alias.lexeme body))
              else do
                add_error alias (codes "expected identifier after 'onerr as'")
                pure (clause token no_expression []))
        else parse_onerr_body token
