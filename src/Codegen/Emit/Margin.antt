-- ===== src/Codegen/Emit/Margin.antt =====
-- internal/codegen/emit.go: the left margin of the lines that the walk writes.
use kukicha.Prelude.{
  ℕ, zero, suc, ◌+◌, ◌≤◌, Bool, true, false, ◌&&◌, ◌||◌, List, Option, [], ◌∷◌, ◌++◌, ◌≡◌, refl, ap,
  ◌∙◌, arith, Bytes, codes, ◌==◌, if◌then◌else◌, is_empty, sum_by-append, append_assoc,
}
use mathlib.Core.List.{map}
use kukicha.Lexer.Strings.Dedent.{split_lines}
use kukicha.Codegen.Ir.{
  Node, Block, Nodes, block_node, assign, var_decl, if_err_check, goto, label, scoped_block,
  raw_stmt, return_stmt, expr_stmt, comment, nil_block, block, no_nodes, node_then,
}
use kukicha.Codegen.Emit.{Generator, write_text, emit_block, tabs, line_text}
use kukicha.Codegen.Emit.Text.{
  Piece, directive, line, pieces, block_pieces, nodes_pieces, closed, print_all, emit_block-printed,
}
use kukicha.Codegen.Emit.Breaks.{
  is_break, breaks, block_breaks, node_breaks, nodes_breaks, All, All-append, split_lines-breaks,
  if_breaks, text_of-breaks,
}

-- The text begins with that many tabs.
abbrev pub has_margin : ℕ → Bytes → Bool
has_margin zero s = true
has_margin (suc d) [] = false
has_margin (suc d) (c ∷ cs) = c == 9 && has_margin d cs

-- One line, which is blank or begins with that many tabs.
abbrev pub IsLine : ℕ → Bytes → Type 0
IsLine d s = (breaks s ≡ 0) × (is_empty s || has_margin d s ≡ true)

abbrev pub lines_text : List Bytes → Bytes
lines_text [] = []
lines_text (s ∷ ss) = s ++ 10 ∷ lines_text ss

-- A piece that is one line at a depth of at least that.
abbrev IsPlaced : ℕ → Piece → Type 0
IsPlaced d (directive p) = Unit
IsPlaced d (line k s) = (d ≤ k) × (breaks s ≡ 0)

All-deeper : (d : ℕ) (ps : List Piece) → All (IsPlaced (d + 1)) ps → All (IsPlaced d) ps
All-deeper d [] h = tt
All-deeper d (directive p ∷ ps) h = (tt, All-deeper d ps h.1)
All-deeper d (line k s ∷ ps) h = ((omega (arith, h.0.0), h.0.1), All-deeper d ps h.1)

All-lines :
    (d : ℕ) (ss : List Bytes) → All (λ s. breaks s ≡ 0) ss → All (IsPlaced d) (map (line d) ss)
All-lines d [] h = tt
All-lines d (s ∷ ss) h = ((omega arith, h.0), All-lines d ss h.1)

All-closed :
    (d : ℕ) (head : Bytes) (body : List Piece)
    → breaks head ≡ 0
    → All (IsPlaced (d + 1)) body
    → All (IsPlaced d) (closed d head body)
All-closed d head body e h = (
  (omega arith, e),
  All-append (IsPlaced d) body _ (All-deeper d body h) ((omega arith, refl), tt),
)

mutual
  unfolding pieces

  All-pieces : (d : ℕ) (n : Node) → node_breaks n ≡ 0 → All (IsPlaced d) (pieces d n)
  All-pieces d (block_node b) h = All-block_pieces d b h
  All-pieces d (assign names e walrus p) h =
      (tt, ((omega arith, text_of-breaks (assign names e walrus p) h), tt))
  All-pieces d (var_decl name type value p) h =
      (tt, ((omega arith, text_of-breaks (var_decl name type value p) h), tt))
  All-pieces d (if_err_check e b p) h = (
    tt,
    All-closed d (codes "if " ++ e ++ codes " != nil {") (block_pieces (d + 1) b)
        (if_breaks e (omega arith)) (All-block_pieces (d + 1) b (omega arith)),
  )
  All-pieces d (goto name) h = ((omega arith, text_of-breaks (goto name) h), tt)
  All-pieces d (label name) h = ((omega arith, text_of-breaks (label name) h), tt)
  All-pieces d (scoped_block b) h =
      All-closed d (codes "{") (block_pieces (d + 1) b) refl (All-block_pieces (d + 1) b h)
  All-pieces d (raw_stmt code p) h = (tt, All-lines d (split_lines code) (split_lines-breaks code))
  All-pieces d (return_stmt values p) h =
      (tt, ((omega arith, text_of-breaks (return_stmt values p) h), tt))
  All-pieces d (expr_stmt e p) h = (tt, ((omega arith, h), tt))
  All-pieces d (comment text) h = ((omega arith, text_of-breaks (comment text) h), tt)

  All-block_pieces : (d : ℕ) (b : Block) → block_breaks b ≡ 0 → All (IsPlaced d) (block_pieces d b)
  All-block_pieces d nil_block h = tt
  All-block_pieces d (block ns) h = All-nodes_pieces d ns h

  All-nodes_pieces :
      (d : ℕ) (ns : Nodes) → nodes_breaks ns ≡ 0 → All (IsPlaced d) (nodes_pieces d ns)
  All-nodes_pieces d no_nodes h = tt
  All-nodes_pieces d (node_then n ns) h =
      All-append (IsPlaced d) (pieces d n) (nodes_pieces d ns) (All-pieces d n (omega arith))
        (All-nodes_pieces d ns (omega arith))

abbrev line_of : ℕ → Bytes → Bytes
line_of k s = if is_empty s then [] else tabs k ++ s

abbrev lines_of : List Piece → List Bytes
lines_of [] = []
lines_of (directive p ∷ ps) = lines_of ps
lines_of (line k s ∷ ps) = line_of k s ∷ lines_of ps

tabs-breaks : (k : ℕ) → breaks (tabs k) ≡ 0
unfolding tabs
tabs-breaks zero = refl
tabs-breaks (suc k) = omega (arith, tabs-breaks k)

tabs-has_margin : (d k : ℕ) (s : Bytes) → d ≤ k → has_margin d (tabs k ++ s) ≡ true
unfolding tabs
tabs-has_margin zero k s h = refl
tabs-has_margin (suc d) zero s h = absurd (omega arith)
tabs-has_margin (suc d) (suc k) s h = tabs-has_margin d k s (omega arith)

or_right : (a b : Bool) → b ≡ true → (a || b) ≡ true
or_right a b h = ground arith

line_of-IsLine : (d k : ℕ) (s : Bytes) → d ≤ k → breaks s ≡ 0 → IsLine d (line_of k s)
line_of-IsLine d k [] l h = (refl, refl)
line_of-IsLine d k (c ∷ cs) l h = (
  omega (arith, sum_by-append is_break (tabs k) (c ∷ cs), tabs-breaks k),
  or_right _ _ (tabs-has_margin d k (c ∷ cs) l),
)

lines_of-IsLine : (d : ℕ) (ps : List Piece) → All (IsPlaced d) ps → All (IsLine d) (lines_of ps)
lines_of-IsLine d [] h = tt
lines_of-IsLine d (directive p ∷ ps) h = lines_of-IsLine d ps h.1
lines_of-IsLine d (line k s ∷ ps) h = (line_of-IsLine d k s h.0.0 h.0.1, lines_of-IsLine d ps h.1)

module _ (r : Bytes → Bytes → Option Bytes) where
  print_all-lines_of :
      (dir : Bytes) (ps : List Piece) → print_all r true dir ps ≡ lines_text (lines_of ps)
  unfolding line_text
  print_all-lines_of dir [] = refl
  print_all-lines_of dir (directive p ∷ ps) = print_all-lines_of dir ps
  print_all-lines_of dir (line k s ∷ ps) =
      append_assoc (line_of k s) (10 ∷ []) (print_all r true dir ps)
      ∙ ap (λ t. line_of k s ++ 10 ∷ t) (print_all-lines_of dir ps)

  -- Where `//line` directives are stripped, and no text of the block but the code of its raw
  -- statements has a line break, `emitIR` appends lines to the output and changes nothing else. A
  -- line is blank or begins with at least as many tabs as the indentation at the call, also within
  -- the code of a raw statement.
  pub emit_block-lines :
      (b : Block) (g : Generator)
      → g.strip_line_directives ≡ true
      → block_breaks b ≡ 0
      → (ls : List Bytes) × (emit_block r b g ≡ write_text (lines_text ls) g)
        × All (IsLine g.indent) ls
  emit_block-lines b g e h = (
    lines_of (block_pieces g.indent b),
    emit_block-printed r b g
        ∙ ap (λ t. write_text t g)
            (ap (λ s. print_all r s g.project_dir (block_pieces g.indent b)) e
              ∙ print_all-lines_of g.project_dir (block_pieces g.indent b)),
    lines_of-IsLine g.indent (block_pieces g.indent b) (All-block_pieces g.indent b h),
  )
