-- ===== src/Parser/Parsers.antt =====
-- The calls of the parser that do not go to a smaller piece of the syntax.
use kukicha.Prelude.{ℕ, Bytes, Option}
use kukicha.Ast.Types.{TypeAnnotation}
use kukicha.Ast.Trees.{Expression, Block, Statement}
use kukicha.Parser.State.{M}
use kukicha.Parser.Types.{parse_type_annotation}

-- The parsers for what is nested in the present piece, the rounds that a loop may take, and
-- `strconv.ParseFloat` with the bits that it returns.
pub record Parsers : Type 0 where
  pub fuel : ℕ
  pub parse_expression : M Expression
  pub parse_unary_expr : M Expression
  pub parse_if_expression : M Expression
  pub parse_block : M Block
  pub parse_if_stmt : M Statement
  pub parse_float : Bytes → Option ℕ

unfoldable pub parse_type : Parsers → M TypeAnnotation
unfolding parse_type_annotation
parse_type self = parse_type_annotation self.fuel
