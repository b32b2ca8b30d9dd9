-- ===== src/Lexer.antt =====
-- internal/lexer/lexer.go: from the runes of a source file to its tokens.
pub mod Runes
pub mod Utf8
pub mod Cursor
pub mod State
pub mod Escapes
pub mod Strings
pub mod Literals
pub mod Indentation
pub mod Merge
pub mod Braces
pub mod Scan
pub mod Nesting
pub mod Shrinking
pub mod Invariant
pub mod Budget
pub mod Termination
pub mod Results
pub mod Multiline
