-- ===== src/Parser/Declarations.antt =====
-- internal/parser/parser_decl.go: declarations.
use kukicha.Prelude.{
  ℕ, zero, suc, Bool, ◌&&◌, ◌||◌, List, [], ◌∷◌, ◌++◌, codes, is_empty, if◌then◌else◌, Option, none,
  some,
}
use kukicha.Token.{
  TokenType, is_type, token_indent, token_dedent, token_newline, token_lparen, token_rparen,
  token_identifier, token_on, token_assign, token_comma, token_type, token_interface, token_func,
  token_var, token_const, token_enum,
}
use kukicha.Token.Names.{type_name}
use kukicha.Ast.Types.{Directive, Identifier, no_types}
use kukicha.Ast.Trees.{
  FieldDecl, TypeDecl, no_expression, an_expression, no_expressions, Parameters, no_parameters,
  var_decl_stmt, no_onerr,
}
use kukicha.Ast.Declarations.{
  ConstSpec, EnumCase, MethodSignature, Receiver, Declaration, const_decl, type_decl, enum_decl,
  interface_decl, function_decl, var_decl, nil_interface_decl,
}
use kukicha.Parser.State.{M, ◌>>=◌, ◌>>◌, pure, panic, no_fuel, add_error}
use kukicha.Parser.Cursor.{
  peek_token, peek_at, is_at_end, advance, check, matches, consume, skip_newlines, drain_directives,
}
use kukicha.Parser.Parsers.{Parsers, parse_type}
use kukicha.Parser.Literals.{parse_identifier}
use kukicha.Parser.Arguments.{parse_expression_list, parse_parameters, parse_return_types}
use kukicha.Parser.TypeDecls.{parse_type_decl}

-- The loop that four declarations share: `entry` reads what stands between newlines, up to the
-- dedent or the end.
module _ {A : Type 0} (entry : M A) where
  unfoldable pub parse_entries : ℕ → M (List A)
  unfolding check is_at_end skip_newlines
  parse_entries zero = no_fuel
  parse_entries (suc fuel) = do
    closed ← check token_dedent
    end ← is_at_end
    if closed || end then pure [] else do
      skip_newlines
      dedent ← check token_dedent
      if dedent
          then pure []
          else do a ← entry; skip_newlines; rest ← parse_entries fuel; pure (a ∷ rest)

-- A slice that was never appended to is nil.
abbrev non_empty : List FieldDecl → Option (List FieldDecl)
non_empty [] = none
non_empty (f ∷ fs) = some (f ∷ fs)

module _ (self : Parsers) where
  unfoldable pub parse_method_signature : M MethodSignature
  unfolding parse_identifier consume parse_parameters check parse_return_types
  parse_method_signature = do
    name ← parse_identifier
    consume token_lparen (codes "expected '(' for method parameters")
    params ← parse_parameters self
    consume token_rparen (codes "expected ')' after method parameters")
    newline ← check token_newline
    dedent ← check token_dedent
    returns ← (if newline || dedent then pure no_types else parse_return_types self)
    pure (record { name = name; parameters = params; returns = returns })

  -- A nil pointer where no block follows.
  unfoldable pub parse_interface_decl : M Declaration
  unfolding advance skip_newlines parse_identifier matches peek_token add_error parse_entries
      parse_method_signature consume
  parse_interface_decl = do
    token ← advance
    skip_newlines
    name ← parse_identifier
    skip_newlines
    indent ← matches (token_indent ∷ [])
    if indent
        then (do
          methods ← parse_entries parse_method_signature self.fuel
          consume token_dedent (codes "expected dedent after interface methods")
          skip_newlines
          pure (interface_decl token name methods []))
        else do
          t ← peek_token
          add_error t (codes "expected indented block for interface methods")
          pure nil_interface_decl

  -- `isGoStyleReceiver`
  unfoldable pub is_go_style_receiver : M Bool
  unfolding peek_at
  is_go_style_receiver = do t ← peek_at 1; pure (is_type token_identifier t.type)

  unfoldable pub parse_receiver : M Receiver
  unfolding parse_identifier parse_type
  parse_receiver = do
    name ← parse_identifier
    type ← parse_type self
    pure (record { name = name; type = type })

  -- The name and the receiver, in either order.
  unfoldable pub parse_function_name : M (Identifier × Option Receiver)
  unfolding check is_go_style_receiver advance parse_receiver consume skip_newlines parse_identifier
      matches
  parse_function_name = do
    paren ← check token_lparen
    receiver_first ← is_go_style_receiver
    if paren && receiver_first
        then (do
          advance
          r ← parse_receiver
          consume token_rparen (codes "expected ')' after receiver")
          skip_newlines
          name ← parse_identifier
          pure (name, some r))
        else do
          name ← parse_identifier
          on ← matches (token_on ∷ [])
          if on then (do r ← parse_receiver; pure (name, some r)) else pure (name, none)

  unfoldable pub parse_function_parameters : M Parameters
  unfolding check advance parse_parameters consume
  parse_function_parameters = do
    paren ← check token_lparen
    if paren
        then (do
          advance
          params ← parse_parameters self
          consume token_rparen (codes "expected ')' after function parameters")
          pure params)
        else pure no_parameters

  unfoldable pub parse_function_decl : M Declaration
  unfolding advance skip_newlines parse_function_name parse_function_parameters check
      parse_return_types
  parse_function_decl = do
    token ← advance
    skip_newlines
    (name, receiver) ← parse_function_name
    params ← parse_function_parameters
    newline ← check token_newline
    indent ← check token_indent
    returns ← (if newline || indent then pure no_types else parse_return_types self)
    skip_newlines
    body ← self.parse_block
    pure (function_decl token name params returns body receiver [])

  unfoldable pub parse_const_spec : M ConstSpec
  unfolding parse_identifier consume
  parse_const_spec = do
    name ← parse_identifier
    consume token_assign (codes "expected '=' after const name '" ++ (name.value ++ codes "'"))
    value ← self.parse_expression
    pure (record { name = name; value = value })

  unfoldable pub parse_const_decl : M (Option Declaration)
  unfolding advance check skip_newlines matches peek_token add_error parse_entries parse_const_spec
      consume
  parse_const_decl = do
    token ← advance
    newline ← check token_newline
    indent ← check token_indent
    if newline || indent
        then (do
          skip_newlines
          opened ← matches (token_indent ∷ [])
          if opened
              then (do
                specs ← parse_entries parse_const_spec self.fuel
                consume token_dedent (codes "expected dedent after const block")
                skip_newlines
                pure (some (const_decl token specs)))
              else do
                t ← peek_token
                add_error t (codes "expected indented block or name after 'const'")
                pure none)
        else do spec ← parse_const_spec; skip_newlines; pure (some (const_decl token (spec ∷ [])))

  -- The names behind the first one.
  unfoldable pub more_identifiers : ℕ → M (List Identifier)
  unfolding matches parse_identifier
  more_identifiers zero = no_fuel
  more_identifiers (suc fuel) = do
    comma ← matches (token_comma ∷ [])
    if comma then (do i ← parse_identifier; is ← more_identifiers fuel; pure (i ∷ is)) else pure []

  unfoldable pub parse_var_declaration : M Declaration
  unfolding advance skip_newlines parse_identifier more_identifiers check parse_type matches
      parse_expression_list
  parse_var_declaration = do
    token ← advance
    skip_newlines
    first ← parse_identifier
    rest ← more_identifiers self.fuel
    untyped ← check token_assign
    type ← (if untyped then pure none else do t ← parse_type self; pure (some t))
    assign ← matches (token_assign ∷ [])
    values ← (if assign then parse_expression_list self else pure no_expressions)
    skip_newlines
    pure (var_decl (var_decl_stmt (first ∷ rest) type values token no_onerr))

  unfoldable pub parse_variant_field : M FieldDecl
  unfolding parse_identifier parse_type
  parse_variant_field = do
    name ← parse_identifier
    type ← parse_type self
    pure (record { name = name; type = type; tag = [] })

  unfoldable pub parse_enum_case : M EnumCase
  unfolding parse_identifier skip_newlines check advance parse_entries parse_variant_field consume
  parse_enum_case = do
    name ← parse_identifier
    skip_newlines
    assign ← check token_assign
    indent ← check token_indent
    if assign
        then (do
          advance
          value ← self.parse_expression
          pure (record { name = name; value = an_expression value; fields = none }))
        else if indent
        then (do
          advance
          fields ← parse_entries parse_variant_field self.fuel
          consume token_dedent (codes "expected dedent after variant fields")
          pure (record { name = name; value = no_expression; fields = non_empty fields }))
        else pure (record { name = name; value = no_expression; fields = some [] })

  unfoldable pub parse_enum_decl : M (Option Declaration)
  unfolding advance skip_newlines parse_identifier matches peek_token add_error parse_entries
      parse_enum_case consume
  parse_enum_decl = do
    token ← advance
    skip_newlines
    name ← parse_identifier
    skip_newlines
    indent ← matches (token_indent ∷ [])
    if indent
        then (do
          cases ← parse_entries parse_enum_case self.fuel
          consume token_dedent (codes "expected dedent after enum cases")
          skip_newlines
          pure (some (enum_decl token name cases [])))
        else do
          t ← peek_token
          add_error t (codes "expected indented block for enum cases")
          pure none

-- The directives put into the declaration, which dereferences its pointer.
unfoldable pub attach : List Directive → Declaration → M Declaration
attach ds (type_decl d old) = pure (type_decl d ds)
attach ds (enum_decl t n cs old) = pure (enum_decl t n cs ds)
attach ds (interface_decl t n ms old) = pure (interface_decl t n ms ds)
attach ds (function_decl t n ps rs b r old) = pure (function_decl t n ps rs b r ds)
attach ds (const_decl t specs) = pure (const_decl t specs)
attach ds (var_decl s) = pure (var_decl s)
attach ds nil_interface_decl = panic

unfoldable pub attach_if_any : List Directive → Option Declaration → M (Option Declaration)
unfolding attach
attach_if_any ds none = pure none
attach_if_any ds (some d) = if is_empty ds then pure (some d) else do e ← attach ds d; pure (some e)

abbrev returned : M Declaration → M (Option Declaration)
returned m = do d ← m; pure (some d)

abbrev with_no_directives : Option TypeDecl → Option Declaration
with_no_directives none = none
with_no_directives (some d) = some (type_decl d [])

module _ (self : Parsers) where
  -- The default of `parseDeclaration`, which returns nil whatever the directives.
  unfoldable pub skip_unexpected : M (Option Declaration)
  unfolding is_at_end peek_token add_error advance
  skip_unexpected = do
    end ← is_at_end
    if end then pure none else do
      t ← peek_token
      add_error t (
          codes "unexpected token " ++ (codes (type_name t.type) ++ codes ", expected declaration"))
      advance
      pure none

  unfoldable pub declaration_case : TokenType → M (Option Declaration)
  unfolding parse_type_decl parse_interface_decl parse_function_decl parse_var_declaration
      parse_const_decl parse_enum_decl skip_unexpected
  declaration_case token_type = do d ← parse_type_decl self; pure (with_no_directives d)
  declaration_case token_interface = returned (parse_interface_decl self)
  declaration_case token_func = returned (parse_function_decl self)
  declaration_case token_var = returned (parse_var_declaration self)
  declaration_case token_const = parse_const_decl self
  declaration_case token_enum = parse_enum_decl self
  declaration_case other = skip_unexpected

  unfoldable pub parse_declaration : M (Option Declaration)
  unfolding skip_newlines drain_directives peek_token declaration_case attach_if_any
  parse_declaration = do
    skip_newlines
    directives ← drain_directives
    t ← peek_token
    declaration ← declaration_case t.type
    attach_if_any directives declaration
