-- ===== src/Parser/Nil.antt =====
-- internal/parser/parser_decl.go: an interface whose block is missing is a nil pointer.
use kukicha.Prelude.{false, ◌≡◌, refl, List, [], ◌∷◌, is_empty, ◌++◌}
use kukicha.Token.{
  Token, TokenType, type_index, token_directive, token_interface, token_identifier, token_indent,
  token_newline, token_comment, token_semicolon,
}
use kukicha.Ast.Types.{Directive}
use kukicha.Parser.Directives.{parse_directive}
use kukicha.Parser.Views.{of_type}
use kukicha.Parser.State.{Parser, panicked, add_error}
use kukicha.Parser.Cursor.{
  one_of, peek_token, advance, check, matches, skip_newlines, drain_directives, skip_ignored_tokens,
}
use kukicha.Parser.Literals.{parse_identifier}
use kukicha.Parser.Parsers.{Parsers}
use kukicha.Parser.Declarations.{
  parse_declaration, declaration_case, parse_interface_decl, attach_if_any, attach,
}

is_empty-append :
    (xs : List Directive) (y : Directive) (ys : List Directive) → is_empty (xs ++ y ∷ ys) ≡ false
is_empty-append [] y ys = refl
is_empty-append (x ∷ xs) y ys = refl

-- parseDeclaration panics on a directive, `interface` and a name, if the next token is neither ignored
-- nor a newline nor an INDENT.
pub parse_declaration-nil_interface :
    (k : TokenType) (self : Parsers) (p : Parser) (d i n x : Token) (rest : List Token)
    → one_of
        (token_comment ∷ token_semicolon ∷ token_directive ∷ token_newline ∷ token_indent ∷ [])
        k
      ≡ false
    → parse_declaration self (record p {
      rest =
          of_type token_directive d
          ∷ of_type token_interface i
          ∷ of_type token_identifier n
          ∷ of_type k x
          ∷ rest;
    })
      ≡ panicked
unfolding parse_declaration skip_newlines drain_directives peek_token skip_ignored_tokens
    declaration_case parse_interface_decl advance parse_identifier matches check add_error
    attach_if_any attach type_index
parse_declaration-nil_interface token_comment self p d i n x rest h = cc
parse_declaration-nil_interface token_semicolon self p d i n x rest h = cc
parse_declaration-nil_interface token_directive self p d i n x rest h = cc
parse_declaration-nil_interface token_newline self p d i n x rest h = cc
parse_declaration-nil_interface token_indent self p d i n x rest h = cc
parse_declaration-nil_interface _ self p d i n x rest h =
    rw (is_empty-append p.pending_directives (parse_directive (of_type token_directive d)) []) refl
