-- ===== src/Codegen/Emit/Breaks.antt =====
-- internal/codegen/emit.go: the line breaks in the texts that the walk writes.
use kukicha.Prelude.{
  ℕ, ◌+◌, true, false, List, [], ◌∷◌, ◌++◌, ◌≡◌, refl, arith, Bytes, codes, ◌==◌, if◌then◌else◌,
  Bool-cases, inl, inr, sum_by, sum_by-append,
}
use kukicha.Lexer.Strings.Dedent.{split_lines, onto_first}
use kukicha.Codegen.Ir.{
  Node, Block, Nodes, block_node, assign, var_decl, if_err_check, goto, label, scoped_block,
  raw_stmt, return_stmt, expr_stmt, comment, nil_block, block, no_nodes, node_then,
}
use kukicha.Codegen.Emit.{join_strings}
use kukicha.Codegen.Emit.Text.{text_of}

-- The line breaks in a text.
abbrev pub is_break : ℕ → ℕ
is_break c = if c == 10 then 1 else 0

abbrev pub breaks : Bytes → ℕ
breaks s = sum_by is_break s

-- The line breaks in the texts of a block other than the code of raw statements.
abbrev mutual
  pub node_breaks : Node → ℕ
  node_breaks (block_node b) = block_breaks b
  node_breaks (assign names e walrus p) = sum_by breaks names + breaks e
  node_breaks (var_decl name type value p) = breaks name + breaks type + breaks value
  node_breaks (if_err_check e b p) = breaks e + block_breaks b
  node_breaks (goto name) = breaks name
  node_breaks (label name) = breaks name
  node_breaks (scoped_block b) = block_breaks b
  node_breaks (raw_stmt code p) = 0
  node_breaks (return_stmt values p) = sum_by breaks values
  node_breaks (expr_stmt e p) = breaks e
  node_breaks (comment text) = breaks text

  pub block_breaks : Block → ℕ
  block_breaks nil_block = 0
  block_breaks (block ns) = nodes_breaks ns

  pub nodes_breaks : Nodes → ℕ
  nodes_breaks no_nodes = 0
  nodes_breaks (node_then n ns) = node_breaks n + nodes_breaks ns

module _ {A : Type 0} (P : A → Type 0) where
  abbrev pub All : List A → Type 0
  All [] = Unit
  All (x ∷ xs) = P x × All xs

  pub All-append : (xs ys : List A) → All xs → All ys → All (xs ++ ys)
  All-append [] ys h k = k
  All-append (x ∷ xs) ys h k = (h.0, All-append xs ys h.1 k)

-- A line that gets a rune that is no break, at the front.
onto_first-breaks :
    (c : ℕ) (ss : List Bytes)
    → is_break c ≡ 0
    → All (λ s. breaks s ≡ 0) ss
    → All (λ s. breaks s ≡ 0) (onto_first c ss)
unfolding onto_first
onto_first-breaks c [] e h = (omega arith, tt)
onto_first-breaks c (s ∷ ss) e h = (omega (arith, h.0), h.1)

pub split_lines-breaks : (cs : Bytes) → All (λ s. breaks s ≡ 0) (split_lines cs)
unfolding split_lines
split_lines-breaks [] = (refl, tt)
split_lines-breaks (c ∷ cs) = elim (Bool-cases (c == 10)) [
  | inl h ↦ rw h (refl, split_lines-breaks cs)
  | inr h ↦ rw h (onto_first-breaks c (split_lines cs) (rw h refl) (split_lines-breaks cs))
]

join_strings-breaks : (ss : List Bytes) → breaks (join_strings ss (codes ", ")) ≡ sum_by breaks ss
unfolding join_strings
join_strings-breaks [] = refl
join_strings-breaks (s ∷ []) = omega arith
join_strings-breaks (s ∷ t ∷ ss) = omega (
  arith,
  sum_by-append is_break (s ++ codes ", ") (join_strings (t ∷ ss) (codes ", ")),
  sum_by-append is_break s (codes ", "),
  join_strings-breaks (t ∷ ss),
)

pub if_breaks : (e : Bytes) → breaks e ≡ 0 → breaks (codes "if " ++ e ++ codes " != nil {") ≡ 0
if_breaks e h = omega (
  arith,
  sum_by-append is_break (codes "if " ++ e) (codes " != nil {"),
  sum_by-append is_break (codes "if ") e,
)

-- The text of a node written as one line has the breaks of its parts.
pub text_of-breaks : (n : Node) → node_breaks n ≡ 0 → breaks (text_of n) ≡ 0
unfolding text_of
text_of-breaks (assign names e true p) h = omega (
  arith,
  sum_by-append is_break (join_strings names (codes ", ") ++ codes " := ") e,
  sum_by-append is_break (join_strings names (codes ", ")) (codes " := "),
  join_strings-breaks names,
)
text_of-breaks (assign names e false p) h = omega (
  arith,
  sum_by-append is_break (join_strings names (codes ", ") ++ codes " = ") e,
  sum_by-append is_break (join_strings names (codes ", ")) (codes " = "),
  join_strings-breaks names,
)
text_of-breaks (var_decl name type [] p) h = grind (arith, sum_by-append)
text_of-breaks (var_decl name type (c ∷ cs) p) h = grind (arith, sum_by-append)
text_of-breaks (goto name) h = omega (arith, sum_by-append is_break (codes "goto ") name)
text_of-breaks (label name) h = omega (arith, sum_by-append is_break name (b':' ∷ []))
text_of-breaks (return_stmt [] p) h = refl
text_of-breaks (return_stmt (v ∷ vs) p) h = omega (arith, join_strings-breaks (v ∷ vs))
text_of-breaks (expr_stmt e p) h = h
text_of-breaks (comment text) h = omega (arith, sum_by-append is_break (codes "// ") text)
text_of-breaks _ h = refl
