-- ===== src/Parser.antt =====
-- internal/parser: the recursive-descent parser.
pub mod State
pub mod Directives
pub mod Cursor
pub mod Views
pub mod Steps
pub mod Types
pub mod Numbers
pub mod Parsers
pub mod Literals
pub mod Arguments
pub mod Composites
pub mod Lambdas
pub mod Switches
pub mod Primary
pub mod Postfix
pub mod Operators
pub mod TypeDecls
pub mod OnErr
pub mod Assignments
pub mod Statements
pub mod Loops
pub mod Blocks
pub mod Declarations
pub mod Programs
pub mod Nil
