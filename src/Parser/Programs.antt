-- ===== src/Parser/Programs.antt =====
-- internal/parser: `New`, the head of a file, and `Parse`.
use kukicha.Prelude.{
  ℕ, zero, suc, ◌+◌, ◌&&◌, ◌||◌, List, [], ◌∷◌, ◌++◌, Bytes, codes, same, if◌then◌else◌, Option,
  none, some, length,
}
use kukicha.Token.{
  Token, TokenType, is_type, token_indent, token_dedent, token_identifier, token_colon,
  token_string, token_as, token_lparen, token_rparen, token_newline, token_semicolon, token_petiole,
  token_skill, token_import,
}
use kukicha.Token.Names.{type_name}
use kukicha.Lexer.State.{LexError}
use kukicha.Lexer.Scan.{Outcome, scanned, failed}
use kukicha.Ast.Types.{Identifier}
use kukicha.Ast.Declarations.{PetioleDecl, SkillDecl, ImportDecl, Declaration, Program}
use kukicha.Parser.State.{
  Parser, ParserError, scan_error, new_from_tokens, M, ◌>>=◌, ◌>>◌, pure, no_fuel, add_error,
}
use kukicha.Parser.Cursor.{
  peek_token, peek_next_token, is_at_end, advance, check, matches, consume, skip_newlines, one_of,
}
use kukicha.Parser.Parsers.{Parsers}
use kukicha.Parser.Literals.{parse_identifier}
use kukicha.Parser.Primary.{parse_if}
use kukicha.Parser.Operators.{parse_unary, parse_any_expression}
use kukicha.Parser.Statements.{parse_if_statement}
use kukicha.Parser.Blocks.{parse_indented_block}
use kukicha.Parser.Declarations.{parse_declaration}

abbrev scan_errors : List LexError → List ParserError
scan_errors [] = []
scan_errors (e ∷ es) = scan_error e ∷ scan_errors es

-- `New`, on what `ScanTokens` returns.
unfoldable pub new_parser : Outcome → Parser
new_parser (scanned tokens) = new_from_tokens tokens
new_parser (failed errors) = record (new_from_tokens []) { errors = scan_errors errors }

unfoldable pub parse_petiole_decl : M PetioleDecl
unfolding advance skip_newlines parse_identifier
parse_petiole_decl = do
  token ← advance
  skip_newlines
  name ← parse_identifier
  skip_newlines
  pure (record { token = token; name = name })

-- The two texts of a skill.
pub record SkillFields : Type 0 where
  pub description : Bytes
  pub version : Bytes

-- A value for the field that `t` names.
unfoldable pub set_skill_field : Token → Bytes → SkillFields → M SkillFields
unfolding same add_error
set_skill_field t value fields =
    if same t.lexeme (codes "description")
    then pure (record fields { description = value })
    else if same t.lexeme (codes "version")
    then pure (record fields { version = value })
    else do
      add_error t (
          codes "unknown skill field '"
          ++ (t.lexeme ++ codes "' (expected 'description' or 'version')"))
      pure fields

-- An entry of the block, behind newlines.
unfoldable pub parse_skill_field : SkillFields → M SkillFields
unfolding advance add_error consume set_skill_field
parse_skill_field fields = do
  t ← advance
  if is_type token_identifier t.type
      then (do
        consume token_colon (codes "expected ':' after '" ++ (t.lexeme ++ codes "'"))
        value ← advance
        if is_type token_string value.type then set_skill_field t value.lexeme fields else do
          add_error value (codes "expected string value for '" ++ (t.lexeme ++ codes "'"))
          pure fields)
      else do
        add_error t (
            codes "expected 'description' or 'version' in skill block, got "
            ++ codes (type_name t.type))
        pure fields

unfoldable pub parse_skill_fields : SkillFields → ℕ → M SkillFields
unfolding check is_at_end skip_newlines parse_skill_field
parse_skill_fields fields zero = no_fuel
parse_skill_fields fields (suc fuel) = do
  closed ← check token_dedent
  end ← is_at_end
  if closed || end then pure fields else do
    skip_newlines
    dedent ← check token_dedent
    if dedent
        then pure fields
        else do next ← parse_skill_field fields; skip_newlines; parse_skill_fields next fuel

abbrev no_skill_fields : SkillFields
no_skill_fields = record { description = []; version = [] }

unfoldable pub parse_skill_decl : ℕ → M SkillDecl
unfolding advance skip_newlines parse_identifier matches parse_skill_fields consume
parse_skill_decl fuel = do
  token ← advance
  skip_newlines
  name ← parse_identifier
  skip_newlines
  indent ← matches (token_indent ∷ [])
  fields ←
      (if indent
        then (do
          f ← parse_skill_fields no_skill_fields fuel
          consume token_dedent (codes "expected dedent after skill block")
          skip_newlines
          pure f)
        else pure no_skill_fields)
  pure (record {
    token = token;
    name = name;
    description = fields.description;
    version = fields.version;
  })

abbrev an_import : Token → Token → Option Identifier → ImportDecl
an_import token path alias = record {
  token = token;
  path_token = path;
  path = path.lexeme;
  alias = alias;
}

-- `parseImportSpec`; `none` is nil.
unfoldable pub parse_import_spec : Token → M (Option ImportDecl)
unfolding peek_token peek_next_token parse_identifier advance add_error matches
parse_import_spec token = do
  t ← peek_token
  u ← peek_next_token
  if is_type token_identifier t.type && is_type token_string u.type
      then (do
        alias ← parse_identifier
        path ← advance
        pure (some (an_import token path (some alias))))
      else do
        path ← advance
        if is_type token_string path.type
            then (do
              aliased ← matches (token_as ∷ [])
              if aliased
                  then (do
                    alias ← parse_identifier
                    pure (some (an_import token path (some alias))))
                  else pure (some (an_import token path none)))
            else do add_error path (codes "expected string literal for import path"); pure none

unfoldable pub parse_import_decl : M (Option ImportDecl)
unfolding advance skip_newlines parse_import_spec
parse_import_decl = do token ← advance; skip_newlines; parse_import_spec token

abbrev import_spaces : List TokenType
import_spaces = token_newline ∷ token_indent ∷ token_dedent ∷ token_semicolon ∷ []

-- `skipGroupedImportWhitespace`
unfoldable pub skip_import_spaces : ℕ → M (Unit {0})
unfolding peek_token advance
skip_import_spaces zero = no_fuel
skip_import_spaces (suc fuel) = do
  t ← peek_token
  if one_of import_spaces t.type then advance >> skip_import_spaces fuel else pure tt

abbrev with_import : Option ImportDecl → List (Option ImportDecl) → List (Option ImportDecl)
with_import none is = is
with_import (some i) is = some i ∷ is

-- The loop of `parseGroupedImports`; `spaces` is the fuel of the loops inside.
unfoldable pub parse_import_specs : Token → ℕ → ℕ → M (List (Option ImportDecl))
unfolding check is_at_end skip_import_spaces parse_import_spec
parse_import_specs token spaces zero = no_fuel
parse_import_specs token spaces (suc fuel) = do
  closed ← check token_rparen
  end ← is_at_end
  if closed || end then pure [] else do
    skip_import_spaces spaces
    rparen ← check token_rparen
    if rparen then pure [] else do
      spec ← parse_import_spec token
      skip_import_spaces spaces
      rest ← parse_import_specs token spaces fuel
      pure (with_import spec rest)

unfoldable pub parse_grouped_imports : ℕ → M (List (Option ImportDecl))
unfolding advance skip_import_spaces consume parse_import_specs skip_newlines
parse_grouped_imports fuel = do
  token ← advance
  skip_import_spaces fuel
  consume token_lparen (codes "expected '(' for grouped import")
  skip_import_spaces fuel
  is ← parse_import_specs token fuel fuel
  consume token_rparen (codes "expected ')' to close grouped import")
  skip_newlines
  pure is

-- The loop over the imports, in one group or alone.
unfoldable pub parse_imports : ℕ → ℕ → M (List (Option ImportDecl))
unfolding peek_token peek_next_token parse_grouped_imports parse_import_decl skip_newlines
parse_imports all zero = no_fuel
parse_imports all (suc fuel) = do
  t ← peek_token
  u ← peek_next_token
  if is_type token_import t.type
      then (do
        is ←
            (if is_type token_lparen u.type
              then parse_grouped_imports all
              else do i ← parse_import_decl; pure (i ∷ []))
        skip_newlines
        rest ← parse_imports all fuel
        pure (is ++ rest))
      else pure []

abbrev with_declaration : Option Declaration → List Declaration → List Declaration
with_declaration none ds = ds
with_declaration (some d) ds = d ∷ ds

-- The loop over the declarations.
unfoldable pub parse_declarations : Parsers → ℕ → M (List Declaration)
unfolding is_at_end parse_declaration
parse_declarations self zero = no_fuel
parse_declarations self (suc fuel) = do
  end ← is_at_end
  if end then pure [] else do
    d ← parse_declaration self
    rest ← parse_declarations self fuel
    pure (with_declaration d rest)

-- The parsers for a nesting of at most `fuel` pieces, each of whose loops takes at most `rounds`.
unfoldable pub parsers : (Bytes → Option ℕ) → ℕ → ℕ → Parsers
unfolding parse_any_expression parse_unary parse_if parse_indented_block parse_if_statement
parsers parse_float rounds zero = record {
  fuel = rounds;
  parse_expression = no_fuel;
  parse_unary_expr = no_fuel;
  parse_if_expression = no_fuel;
  parse_block = no_fuel;
  parse_if_stmt = no_fuel;
  parse_float = parse_float;
}
parsers parse_float rounds (suc fuel) =
    let below = parsers parse_float rounds fuel in
    record {
      fuel = rounds;
      parse_expression = parse_any_expression below;
      parse_unary_expr = parse_unary below;
      parse_if_expression = parse_if below;
      parse_block = parse_indented_block below;
      parse_if_stmt = parse_if_statement below;
      parse_float = parse_float;
    }

-- The first declarations, if their keywords are there.
unfoldable pub parse_optional_petiole : M (Option PetioleDecl)
unfolding peek_token parse_petiole_decl
parse_optional_petiole = do
  t ← peek_token
  if is_type token_petiole t.type then (do d ← parse_petiole_decl; pure (some d)) else pure none

unfoldable pub parse_optional_skill : ℕ → M (Option SkillDecl)
unfolding peek_token parse_skill_decl
parse_optional_skill fuel = do
  t ← peek_token
  if is_type token_skill t.type then (do d ← parse_skill_decl fuel; pure (some d)) else pure none

-- `Parse`
unfoldable pub parse_program : Parsers → M Program
unfolding skip_newlines parse_optional_petiole parse_optional_skill parse_imports parse_declarations
parse_program self = do
  skip_newlines
  petiole ← parse_optional_petiole
  skip_newlines
  skill ← parse_optional_skill self.fuel
  skip_newlines
  imports ← parse_imports self.fuel self.fuel
  declarations ← parse_declarations self self.fuel
  pure (record {
    petiole_decl = petiole;
    skill_decl = skill;
    imports = imports;
    declarations = declarations;
  })

-- `Parse` on a parser that has read nothing, with a unit of fuel for each token and one more.
unfoldable pub parse : (Bytes → Option ℕ) → M Program
unfolding parsers parse_program
parse parse_float p = let n = length p.rest + 1 in parse_program (parsers parse_float n n) p
