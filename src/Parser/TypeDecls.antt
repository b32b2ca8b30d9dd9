-- ===== src/Parser/TypeDecls.antt =====
-- internal/parser/parser_decl.go: `parseTypeDecl` with its field aliases and struct tags.
use kukicha.Prelude.{
  ℕ, zero, suc, false, not, ◌&&◌, ◌||◌, List, [], ◌∷◌, ◌++◌, Bytes, codes, if◌then◌else◌, Option,
  none, some, is_empty,
}
use kukicha.Token.{
  token_as, token_string, token_identifier, token_colon, token_assign, token_func, token_indent,
  token_dedent,
}
use kukicha.Ast.Trees.{FieldDecl, TypeDecl}
use kukicha.Parser.State.{done, M, ◌>>=◌, ◌>>◌, pure, no_fuel, add_error}
use kukicha.Parser.Cursor.{peek_token, is_at_end, advance, check, matches, consume, skip_newlines}
use kukicha.Parser.Parsers.{Parsers, parse_type}
use kukicha.Parser.Literals.{parse_identifier}

unfoldable pub parse_field_alias : M Bytes
unfolding matches check peek_token add_error advance
parse_field_alias = do
  aliased ← matches (token_as ∷ [])
  if aliased
      then (do
        text ← check token_string
        if text then (do t ← advance; pure t.lexeme) else do
          t ← peek_token
          add_error t (codes "expected string value after 'as' in field alias")
          pure [])
      else pure []

abbrev quoted : Bytes → Bytes
quoted s = codes "\"" ++ (s ++ codes "\"")

-- The colon and the text of a tag, whose key was read.
unfoldable pub parse_tag_value : Bytes → M Bytes
unfolding consume check peek_token add_error advance
parse_tag_value key = do
  consume token_colon (codes "expected ':' in struct tag")
  text ← check token_string
  if text
      then (do t ← advance; pure (key ++ (codes ":" ++ quoted t.lexeme)))
      else do t ← peek_token; add_error t (codes "expected string value in struct tag"); pure []

-- The tag behind an identifier. The position goes back if no colon follows it.
parse_tag_or_restore : M Bytes
unfolding advance check parse_tag_value
parse_tag_or_restore saved =
    (do
      key ← advance
      colon ← check token_colon
      if colon then parse_tag_value key.lexeme else λ p.
          done [] (record p { before = saved.before; rest = saved.rest }))
      saved

unfoldable pub parse_struct_tag : M Bytes
unfolding check parse_tag_or_restore
parse_struct_tag = do word ← check token_identifier; if word then parse_tag_or_restore else pure []

module _ (self : Parsers) where
  -- The tag of a field, from its alias or its own.
  unfoldable pub parse_tag : M Bytes
  unfolding parse_field_alias parse_struct_tag peek_token add_error
  parse_tag = do
    alias ← parse_field_alias
    tag ← parse_struct_tag
    if not (is_empty alias) && not (is_empty tag)
        then (do
          t ← peek_token
          add_error t (codes "cannot combine field alias and explicit struct tag on the same field")
          pure tag)
        else if not (is_empty alias)
        then pure (codes "json:" ++ quoted alias)
        else pure tag

  unfoldable pub parse_fields : ℕ → M (List FieldDecl)
  unfolding check is_at_end skip_newlines parse_identifier parse_type parse_tag
  parse_fields zero = no_fuel
  parse_fields (suc fuel) = do
    closed ← check token_dedent
    end ← is_at_end
    if closed || end then pure [] else do
      skip_newlines
      dedent ← check token_dedent
      if dedent then pure [] else do
        name ← parse_identifier
        type ← parse_type self
        tag ← parse_tag
        skip_newlines
        rest ← parse_fields fuel
        pure (record { name = name; type = type; tag = tag } ∷ rest)

  -- `parseTypeDecl`; `none` is nil.
  unfoldable pub parse_type_decl : M (Option TypeDecl)
  unfolding advance skip_newlines parse_identifier matches check parse_type peek_token add_error
      parse_fields consume
  parse_type_decl = do
    token ← advance
    skip_newlines
    name ← parse_identifier
    skip_newlines
    alias ← matches (token_assign ∷ [])
    function ← check token_func
    if alias || function
        then (do
          type ← parse_type self
          skip_newlines
          pure (
              some (record {
                token = token;
                name = name;
                fields = none;
                alias_type = some type;
                is_alias = alias;
              })))
        else do
          indent ← matches (token_indent ∷ [])
          if indent
              then (do
                fields ← parse_fields self.fuel
                consume token_dedent (codes "expected dedent after type fields")
                skip_newlines
                pure (
                    some (record {
                      token = token;
                      name = name;
                      fields = some fields;
                      alias_type = none;
                      is_alias = false;
                    })))
              else do
                t ← peek_token
                add_error t (codes "expected indented block for type fields")
                pure none
