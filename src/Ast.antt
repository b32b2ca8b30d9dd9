-- ===== src/Ast.antt =====
-- internal/ast/ast.go: the syntax trees that the parser builds.
pub mod Types
pub mod Trees
pub mod Declarations
