-- ===== src/Tests.antt =====
-- Runs on small inputs, and the theorems at concrete inputs.
mod Streams
mod Texts
mod Words
mod Edits
mod Tables
mod Programs
mod Blocks
