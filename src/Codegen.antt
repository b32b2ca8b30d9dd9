-- ===== src/Codegen.antt =====
-- internal/ir and internal/codegen/emit.go: the statements that lowering builds, and their text.
pub mod Ir
pub mod Emit
