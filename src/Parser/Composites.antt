-- ===== src/Parser/Composites.antt =====
-- internal/parser/parser_expr.go: literals of lists, maps and structs.
use kukicha.Prelude.{
  ℕ, zero, suc, Bool, true, false, ◌&&◌, ◌||◌, codes, ltb, if◌then◌else◌, none, some,
}
use kukicha.Token.{
  Token, TokenType, is_type, token_rbracket, token_lbrace, token_rbrace, token_of, token_to,
  token_colon, token_comma, token_newline, token_indent, token_dedent, token_identifier,
}
use kukicha.Ast.Types.{Identifier, TypeAnnotation, primitive_type, named_type, list_type, map_type}
use kukicha.Ast.Trees.{
  Expression, identifier, struct_literal_expr, list_literal_expr, map_literal_expr, empty_expr,
  untyped_composite_literal, no_expression, an_expression, Expressions, no_expressions, FieldValues,
  no_values, and_value, no_pairs, UntypedEntries, no_entries, and_entry,
}
use kukicha.Parser.State.{M, ◌>>=◌, ◌>>◌, pure, no_fuel}
use kukicha.Parser.Cursor.{
  peek_token, peek_next_token, peek_at, is_at_end, advance, check, consume, skip_newlines,
}
use kukicha.Parser.Types.{is_primitive}
use kukicha.Parser.Parsers.{Parsers, parse_type}
use kukicha.Parser.Literals.{parse_identifier}
use kukicha.Parser.Arguments.{parse_elements, parse_pairs, parse_braced_values, continues}

module _ (self : Parsers) where
  -- Elements up to the closing token of type `k`, which is returned.
  unfoldable pub parse_closed_elements : TokenType → M (Expressions × Token)
  unfolding check parse_elements consume
  parse_closed_elements k = do
    closed ← check k
    es ← (if closed then pure no_expressions else parse_elements self k self.fuel)
    last ← consume k (
        if is_type token_rbracket k
        then codes "expected ']' after list elements"
        else codes "expected '}' after list elements")
    pure (es, last)

  unfoldable pub parse_list_literal : M Expression
  unfolding advance parse_closed_elements
  parse_list_literal = do
    token ← advance
    (es, last) ← parse_closed_elements token_rbracket
    pure (list_literal_expr token none es (ltb token.line last.line))

  -- The elements in braces behind a list type, or the empty value of the type.
  unfoldable pub parse_list_body : Token → TypeAnnotation → M Expression
  unfolding check advance parse_closed_elements
  parse_list_body token element = do
    brace ← check token_lbrace
    if brace
        then (do
          advance
          (es, last) ← parse_closed_elements token_rbrace
          pure (list_literal_expr token (some element) es (ltb token.line last.line)))
        else pure (empty_expr token (some (list_type token element)))

  unfoldable pub parse_typed_list_literal : M Expression
  unfolding advance consume parse_type parse_list_body
  parse_typed_list_literal = do
    token ← advance
    consume token_of (codes "expected 'of' after 'list'")
    element ← parse_type self
    parse_list_body token element

  unfoldable pub parse_bracket_list_expr : M Expression
  unfolding advance parse_type parse_list_body
  parse_bracket_list_expr = do
    token ← advance
    advance
    element ← parse_type self
    parse_list_body token element

  -- The pairs in braces behind a map type, or the empty value of the type.
  unfoldable pub parse_map_body : Token → TypeAnnotation → TypeAnnotation → M Expression
  unfolding check advance parse_pairs consume
  parse_map_body token key value = do
    brace ← check token_lbrace
    if brace
        then (do
          advance
          closed ← check token_rbrace
          ps ← (if closed then pure no_pairs else parse_pairs self self.fuel)
          last ← consume token_rbrace (codes "expected '}' after map literal")
          pure (map_literal_expr token key value ps (ltb token.line last.line)))
        else pure (empty_expr token (some (map_type token key value)))

  unfoldable pub parse_bracket_map_expr : M Expression
  unfolding advance consume parse_type parse_map_body
  parse_bracket_map_expr = do
    token ← advance
    advance
    key ← parse_type self
    consume token_rbracket (codes "expected ']' after map key type")
    value ← parse_type self
    parse_map_body token key value

  unfoldable pub parse_map_literal : M Expression
  unfolding advance consume parse_type parse_map_body
  parse_map_literal = do
    token ← advance
    consume token_of (codes "expected 'of' after 'map'")
    key ← parse_type self
    consume token_to (codes "expected 'to' after key type")
    value ← parse_type self
    parse_map_body token key value

  -- One more entry of a composite literal, in the form of the first.
  unfoldable pub parse_entry : Bool → Expression → M (UntypedEntries → UntypedEntries)
  unfolding consume
  parse_entry keyed e =
      if keyed
      then (do
        consume token_colon (codes "expected ':' after key in composite literal")
        value ← self.parse_expression
        pure (and_entry (an_expression e) value))
      else pure (and_entry no_expression e)

  unfoldable pub more_entries : Bool → ℕ → M UntypedEntries
  unfolding continues parse_entry
  more_entries keyed zero = no_fuel
  more_entries keyed (suc fuel) = do
    more ← continues self token_rbrace
    if more
        then (do
          e ← self.parse_expression
          entry ← parse_entry keyed e
          rest ← more_entries keyed fuel
          pure (entry rest))
        else pure no_entries

  -- All entries, and whether they are keyed.
  unfoldable pub parse_entries : M (Bool × UntypedEntries)
  unfolding check advance more_entries
  parse_entries = do
    first ← self.parse_expression
    keyed ← check token_colon
    if keyed
        then (do
          advance
          value ← self.parse_expression
          rest ← more_entries true self.fuel
          pure (true, and_entry (an_expression first) value rest))
        else do
          rest ← more_entries false self.fuel
          pure (false, and_entry no_expression first rest)

  unfoldable pub parse_untyped_composite_literal : M Expression
  unfolding advance check parse_entries consume
  parse_untyped_composite_literal = do
    token ← advance
    closed ← check token_rbrace
    (keyed, entries) ← (if closed then pure (false, no_entries) else parse_entries)
    last ← consume token_rbrace (codes "expected '}' after composite literal")
    pure (untyped_composite_literal token keyed entries (ltb token.line last.line))

  -- The fields of a struct literal in an indented block.
  unfoldable pub parse_indented_values : ℕ → M FieldValues
  unfolding check is_at_end skip_newlines parse_identifier consume advance
  parse_indented_values zero = no_fuel
  parse_indented_values (suc fuel) = do
    closed ← check token_dedent
    end ← is_at_end
    if closed || end then pure no_values else do
      skip_newlines
      dedent ← check token_dedent
      if dedent then pure no_values else do
        name ← parse_identifier
        consume token_colon (codes "expected ':' after field name")
        value ← self.parse_expression
        comma ← check token_comma
        if comma then advance >> pure tt else pure tt
        skip_newlines
        rest ← parse_indented_values fuel
        pure (and_value name value rest)

abbrev struct_type : Identifier → TypeAnnotation
struct_type i =
    if is_primitive i.value then primitive_type i.token i.value else named_type i.token i.value

-- NEWLINE, INDENT, an identifier and a colon follow.
unfoldable pub opens_indented_literal : M Bool
unfolding peek_token peek_next_token peek_at
opens_indented_literal = do
  t ← peek_token
  u ← peek_next_token
  v ← peek_at 2
  w ← peek_at 3
  pure (
      is_type token_newline t.type
      && is_type token_indent u.type
      && is_type token_identifier v.type
      && is_type token_colon w.type)

unfoldable pub parse_identifier_or_struct_literal : Parsers → M Expression
unfolding parse_identifier check advance parse_braced_values consume opens_indented_literal
    parse_indented_values is_primitive
parse_identifier_or_struct_literal self = do
  ident ← parse_identifier
  braced ← check token_lbrace
  if braced
      then (do
        advance
        fields ← parse_braced_values self
        last ← consume token_rbrace (codes "expected '}' after struct literal")
        pure (
            struct_literal_expr ident.token (struct_type ident) fields
              (ltb ident.token.line last.line)))
      else do
        indented ← opens_indented_literal
        if indented
            then (do
              advance
              advance
              fields ← parse_indented_values self self.fuel
              consume token_dedent (codes "expected dedent after struct fields")
              pure (struct_literal_expr ident.token (struct_type ident) fields true))
            else pure (identifier ident)
