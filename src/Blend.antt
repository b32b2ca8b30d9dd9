-- ===== src/Blend.antt =====
-- internal/blend: suggestions to turn Go into Kukicha, their application, and the diff that shows it.
pub mod Suggestion
pub mod Apply
pub mod Diff
