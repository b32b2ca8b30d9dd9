-- ===== src/Semantic.antt =====
-- internal/semantic: the symbol table that the analyzer and the language server share.
pub mod Symbols
