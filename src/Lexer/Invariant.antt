-- ===== src/Lexer/Invariant.antt =====
-- The well-formed states of the lexer: its stacks agree with one another and with the tokens.
pub mod Indentation
pub mod Lines
pub mod Steps
pub mod Tokens
use kukicha.Prelude.{
  ℕ, zero, suc, ◌+◌, ◌%◌, ◌<◌, Bool, true, false, List, [], ◌∷◌, Option, none, some, ◌≡◌, refl, ap,
  ◌∙◌, arith, length, rest_of, sum_by, if◌then◌else◌,
}
use kukicha.Lexer.State.{Lexer, Layout}
use kukicha.Lexer.Nesting.{depth_of, IsTame}

-- Indentation levels with the top first: multiples of four that fall strictly, down to 0.
abbrev pub IsLevels : List ℕ → Type 0
IsLevels [] = ⊥
IsLevels (x ∷ []) = x ≡ 0
IsLevels (x ∷ y ∷ rest) = (y < x) × (x % 4 ≡ 0) × IsLevels (y ∷ rest)

-- The block braces among the open braces.
abbrev pub open_blocks : List Bool → ℕ
open_blocks braces = sum_by (λ block. if block then 1 else 0) braces

pub record IsValid (l : Lexer) : Type 0 where
  -- The tokens close no block that is not open, and leave open one block for each pushed
  -- indentation level and for each open block brace.
  pub nested :
      depth_of l ≡ some (length (rest_of l.layout.indent_stack) + l.layout.brace_block_depth)
  pub levels : IsLevels l.layout.indent_stack
  pub paired : length l.layout.closure_indent_stack ≡ length l.layout.closure_paren_depth_stack
  pub blocks : l.layout.brace_block_depth ≡ open_blocks l.layout.brace_stack

pub IsTame-IsValid : {l m : Lexer} → IsTame l m → IsValid l → IsValid m
IsTame-IsValid t v = record {
  nested = t.depth ∙ v.nested ∙ rw (t.indents, t.blocks);
  levels = rw t.indents v.levels;
  paired = rw (t.closures, t.closure_parens) v.paired;
  blocks = t.blocks ∙ v.blocks ∙ rw t.braces;
}
