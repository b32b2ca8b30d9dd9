-- ===== src/Tests/Programs.antt =====
-- internal/parser: runs of the parser, and its theorems at concrete tokens.
use kukicha.Prelude.{
  ℕ, ◌≡◌, refl, List, [], ◌∷◌, ◌++◌, Bytes, codes, Option, none, some, arith, pos,
}
use kukicha.Token.{
  Token, TokenType, type_index, token_func, token_identifier, token_lparen, token_rparen,
  token_newline, token_indent, token_dedent, token_eof, token_return, token_plus, token_star,
  token_interface, token_directive, token_list, token_of, token_to, token_import, token_string,
  token_as,
}
use kukicha.Ast.Types.{
  TypeAnnotation, list_type, named_type, primitive_type, function_type, no_types, and_type,
}
use kukicha.Ast.Trees.{
  identifier, binary_expr, return_stmt, block_stmt, no_parameters, and_expression, no_expressions,
  and_statement, no_statements,
}
use kukicha.Ast.Declarations.{Program, function_decl}
use kukicha.Parser.State.{Parser, Run, done, panicked, new_from_tokens, parse_error}
use kukicha.Parser.Literals.{named}
use kukicha.Parser.Numbers.{parse_int}
use kukicha.Parser.Directives.{parse_directive_args}
use kukicha.Parser.Programs.{parse, parsers}
use kukicha.Parser.Declarations.{parse_declaration}
use kukicha.Parser.Types.{parse_type_annotation, is_primitive}
use kukicha.Parser.Types.Grammar.{Reads, ReadsParameters, ReadsMore, ReadsResults}
use kukicha.Parser.Types.Complete.{parse_type_annotation-Reads}
use kukicha.Parser.Steps.{Ends}
use kukicha.Parser.Types.Halting.{parse_type_annotation-Ends}
use kukicha.Parser.Types.Results.{parse_type_annotation-no_result}
use kukicha.Parser.Nil.{parse_declaration-nil_interface}
use kukicha.Parser.Views.{at, of_type}
use kukicha.Token.Names.{type_name}

abbrev tok : TokenType → Bytes → Token
tok t w = record { type = t; lexeme = w; line = 1; column = 1; file = "a.kuki" }

abbrev no_float : Bytes → Option ℕ
no_float s = none

abbrev program_of : Run Program → Option Program
program_of (done a p) = some a
program_of _ = none

-- func F() \n INDENT return a + b * c \n DEDENT
abbrev sum_function : List Token
sum_function =
    tok token_func (codes "func")
    ∷ tok token_identifier (codes "F")
    ∷ tok token_lparen []
    ∷ tok token_rparen []
    ∷ tok token_newline []
    ∷ tok token_indent []
    ∷ tok token_return []
    ∷ tok token_identifier (codes "a")
    ∷ tok token_plus (codes "+")
    ∷ tok token_identifier (codes "b")
    ∷ tok token_star (codes "*")
    ∷ tok token_identifier (codes "c")
    ∷ tok token_newline []
    ∷ tok token_dedent []
    ∷ tok token_eof []
    ∷ []

abbrev word : Bytes → Token
word w = tok token_identifier w

parse_sum :
    program_of (parse no_float (new_from_tokens sum_function))
    ≡ some (record {
      petiole_decl = none;
      skill_decl = none;
      imports = [];
      declarations =
          function_decl
            (tok token_func (codes "func"))
            (named (word (codes "F")) (codes "F"))
            no_parameters
            no_types
            (block_stmt (tok token_indent []) (
              and_statement
                (return_stmt (tok token_return []) (
                  and_expression
                    (binary_expr
                      (tok token_plus (codes "+"))
                      (identifier (named (word (codes "a")) (codes "a")))
                      (codes "+")
                      (binary_expr
                        (tok token_star (codes "*"))
                        (identifier (named (word (codes "b")) (codes "b")))
                        (codes "*")
                        (identifier (named (word (codes "c")) (codes "c")))))
                    no_expressions))
                no_statements))
            none
            []
          ∷ [];
    })
unfolding parse type_index
parse_sum = refl

-- At the end of the file `as` is taken for the alias behind it.
parse_import_as :
    program_of (
      parse no_float (
        new_from_tokens (
          tok token_import []
          ∷ tok token_string (codes "fmt")
          ∷ tok token_as (codes "as")
          ∷ tok token_eof []
          ∷ [])))
    ≡ some (record {
      petiole_decl = none;
      skill_decl = none;
      imports =
          some (record {
            token = tok token_import [];
            path_token = tok token_string (codes "fmt");
            path = codes "fmt";
            alias = some (named (tok token_as (codes "as")) (codes "as"));
          })
          ∷ [];
      declarations = [];
    })
unfolding parse type_index
parse_import_as = refl

parse_int_hex : parse_int (codes "0xfF") ≡ some (pos 255)
unfolding parse_int
parse_int_hex = refl

directive_args :
    parse_directive_args (codes "a \"b c\"  d") ≡ codes "a" ∷ codes "b c" ∷ codes "d" ∷ []
unfolding parse_directive_args
directive_args = refl

-- list of func(Name) int, in front of a newline
abbrev type_tokens : List Token
type_tokens =
    of_type token_list (word (codes "list"))
    ∷ of_type token_of (word (codes "of"))
    ∷ of_type token_func (word (codes "func"))
    ∷ of_type token_lparen (word [])
    ∷ of_type token_identifier (word (codes "Name"))
    ∷ of_type token_rparen (word [])
    ∷ of_type token_identifier (word (codes "int"))
    ∷ of_type token_newline (word [])
    ∷ []

abbrev some_type : TypeAnnotation
some_type = list_type (of_type token_list (word (codes "list"))) (
    function_type (of_type token_func (word (codes "func")))
      (and_type (named_type (word (codes "Name")) (codes "Name")) no_types)
      (and_type (primitive_type (word (codes "int")) (codes "int")) no_types))

abbrev no_tokens : Parser
no_tokens = new_from_tokens []

abbrev behind_type : List Token
behind_type =
    of_type token_identifier (word (codes "int"))
    ∷ of_type token_rparen (word [])
    ∷ of_type token_identifier (word (codes "Name"))
    ∷ of_type token_lparen (word [])
    ∷ of_type token_func (word (codes "func"))
    ∷ of_type token_of (word (codes "of"))
    ∷ of_type token_list (word (codes "list"))
    ∷ []

type_Reads : Reads some_type [] type_tokens behind_type (of_type token_newline (word []) ∷ [])
unfolding is_primitive type_index
type_Reads = Reads.list_of (word (codes "list")) (word (codes "of")) (
    Reads.function (word (codes "func")) (word []) (word [])
      (ReadsParameters.parameters (refl, refl) (Reads.name (word (codes "Name")) refl (refl, refl))
        (ReadsMore.no_more (refl, refl)))
      (ReadsResults.one_result refl refl (refl, refl) (Reads.primitive (word (codes "int")) refl)))

parse_type_annotation-Reads_example :
    parse_type_annotation 9 (at [] type_tokens no_tokens)
    ≡ done some_type (at behind_type (of_type token_newline (word []) ∷ []) no_tokens)
parse_type_annotation-Reads_example =
    parse_type_annotation-Reads 9 no_tokens type_Reads (omega arith)

parse_type_annotation-no_result_example :
    parse_type_annotation 2 (
      at []
        (of_type token_func (word [])
          ∷ of_type token_lparen (word [])
          ∷ of_type token_rparen (word [])
          ∷ of_type token_to (word [])
          ∷ [])
        no_tokens)
    ≡ done
        (function_type
          (of_type token_func (word []))
          no_types
          (and_type (named_type (of_type token_to (word [])) (codes "_")) no_types))
        (record no_tokens {
          before =
              of_type token_rparen (word [])
              ∷ of_type token_lparen (word [])
              ∷ of_type token_func (word [])
              ∷ [];
          rest = of_type token_to (word []) ∷ [];
          errors =
              []
              ++ parse_error
                  (of_type token_to (word []))
                  (codes "expected type annotation, got " ++ codes (type_name token_to))
                ∷ [];
        })
unfolding type_index
parse_type_annotation-no_result_example =
    parse_type_annotation-no_result token_to 0 [] [] no_tokens (word []) (word []) (word [])
      (word []) refl

parse_declaration-nil_interface_example :
    parse_declaration (parsers no_float 9 9) (record no_tokens {
      rest =
          of_type token_directive (word (codes "# kuki:deprecated \"x\""))
          ∷ of_type token_interface (word (codes "interface"))
          ∷ of_type token_identifier (word (codes "Shape"))
          ∷ of_type token_func (word (codes "func"))
          ∷ [];
    })
    ≡ panicked
unfolding type_index
parse_declaration-nil_interface_example =
    parse_declaration-nil_interface token_func (parsers no_float 9 9) no_tokens
      (word (codes "# kuki:deprecated \"x\"")) (word (codes "interface")) (word (codes "Shape"))
      (word (codes "func")) [] refl

-- `list list )`
abbrev unreadable : Parser
unreadable =
    at []
      (of_type token_list (word (codes "list"))
        ∷ of_type token_list (word (codes "list"))
        ∷ of_type token_rparen (word (codes ")"))
        ∷ [])
      no_tokens

parse_type_annotation-Ends_example : Ends unreadable (parse_type_annotation 4 unreadable)
parse_type_annotation-Ends_example = parse_type_annotation-Ends 4 unreadable (omega arith)
