-- ===== src/Codegen/Emit/Text.antt =====
-- The text of a block as a list of lines at their depth, without the state of the generator.
use kukicha.Prelude.{
  ℕ, ◌+◌, Bool, ◌||◌, List, [], ◌∷◌, ◌++◌, Option, ◌≡◌, refl, sym, ap, ◌∙◌, arith, append_assoc,
  append-nil, Bytes, codes, ◌==◌, if◌then◌else◌, is_empty, Bool-cases, inl, inr,
}
use mathlib.Core.List.{map}
use kukicha.Lexer.Strings.Dedent.{split_lines}
use kukicha.Codegen.Ir.{
  SourcePos, Node, Block, Nodes, block_node, assign, var_decl, if_err_check, goto, label,
  scoped_block, raw_stmt, return_stmt, expr_stmt, comment, nil_block, block, no_nodes, node_then,
}
use kukicha.Codegen.Emit.{
  Generator, join_strings, line_text, write_text, write_line, directive_text, emit_pos, write_lines,
  indented, outdented, emit_node, emit_block, emit_nodes,
}

pub data Piece : Type 0 where
  directive : SourcePos → Piece
  line : ℕ → Bytes → Piece

-- A line that a node is written as, alone.
unfoldable pub text_of : Node → Bytes
text_of (assign names e walrus p) =
    join_strings names (codes ", ") ++ codes (if walrus then " := " else " = ") ++ e
text_of (var_decl name type value p) =
    codes "var " ++ name ++ b' ' ∷ type ++ (if is_empty value then [] else codes " = " ++ value)
text_of (goto name) = codes "goto " ++ name
text_of (label name) = name ++ b':' ∷ []
text_of (return_stmt values p) =
    if is_empty values then codes "return" else codes "return " ++ join_strings values (codes ", ")
text_of (expr_stmt e p) = e
text_of (comment text) = codes "// " ++ text
text_of _ = []

abbrev pub closed : ℕ → Bytes → List Piece → List Piece
closed d head body = line d head ∷ body ++ line d (codes "}") ∷ []

unfoldable mutual
  unfolding text_of

  pub pieces : ℕ → Node → List Piece
  pieces d (block_node b) = block_pieces d b
  pieces d (assign names e walrus p) = directive p ∷ line d (text_of (assign names e walrus p)) ∷ []
  pieces d (var_decl name type value p) =
      directive p ∷ line d (text_of (var_decl name type value p)) ∷ []
  pieces d (if_err_check e b p) =
      directive p ∷ closed d (codes "if " ++ e ++ codes " != nil {") (block_pieces (d + 1) b)
  pieces d (goto name) = line d (text_of (goto name)) ∷ []
  pieces d (label name) = line d (text_of (label name)) ∷ []
  pieces d (scoped_block b) = closed d (codes "{") (block_pieces (d + 1) b)
  pieces d (raw_stmt code p) = directive p ∷ map (line d) (split_lines code)
  pieces d (return_stmt values p) = directive p ∷ line d (text_of (return_stmt values p)) ∷ []
  pieces d (expr_stmt e p) = directive p ∷ line d e ∷ []
  pieces d (comment text) = line d (text_of (comment text)) ∷ []

  pub block_pieces : ℕ → Block → List Piece
  block_pieces d nil_block = []
  block_pieces d (block ns) = nodes_pieces d ns

  pub nodes_pieces : ℕ → Nodes → List Piece
  nodes_pieces d no_nodes = []
  nodes_pieces d (node_then n ns) = pieces d n ++ nodes_pieces d ns

module _ (r : Bytes → Bytes → Option Bytes) where
  abbrev pub print : Bool → Bytes → Piece → Bytes
  print strip dir (directive p) =
      if strip || p.pos_line == 0 || is_empty p.pos_file then [] else directive_text r dir p
  print strip dir (line d s) = line_text d s

  abbrev pub print_all : Bool → Bytes → List Piece → Bytes
  print_all strip dir [] = []
  print_all strip dir (p ∷ ps) = print strip dir p ++ print_all strip dir ps

  print_all-append :
      (strip : Bool) (dir : Bytes) (ps qs : List Piece)
      → print_all strip dir (ps ++ qs) ≡ print_all strip dir ps ++ print_all strip dir qs
  print_all-append strip dir [] qs = refl
  print_all-append strip dir (p ∷ ps) qs =
      ap (◌++◌ (print strip dir p)) (print_all-append strip dir ps qs)
      ∙ sym (append_assoc (print strip dir p) (print_all strip dir ps) (print_all strip dir qs))

  -- The generator behind some lines: they are appended to its output, and nothing else changes.
  abbrev pub printed : List Piece → Generator → Generator
  printed ps g = write_text (print_all g.strip_line_directives g.project_dir ps) g

  printed-append :
      (ps qs : List Piece) (g : Generator) → printed qs (printed ps g) ≡ printed (ps ++ qs) g
  printed-append ps qs g =
      ap (λ o. record g { output = o })
        (append_assoc g.output (print_all g.strip_line_directives g.project_dir ps)
            (print_all g.strip_line_directives g.project_dir qs)
          ∙ ap (◌++◌ g.output) (sym (print_all-append g.strip_line_directives g.project_dir ps qs)))

  printed-nil : (g : Generator) → g ≡ printed [] g
  printed-nil g = ap (λ o. record g { output = o }) (sym (append-nil g.output))

  write_line-printed :
      (s : Bytes) (g : Generator) → write_line s g ≡ printed (line g.indent s ∷ []) g
  unfolding write_line
  write_line-printed s g =
      ap (λ o. record g { output = g.output ++ o }) (sym (append-nil (line_text g.indent s)))

  emit_pos-printed : (p : SourcePos) (g : Generator) → emit_pos r p g ≡ printed (directive p ∷ []) g
  unfolding emit_pos
  emit_pos-printed p g =
      elim (Bool-cases (g.strip_line_directives || p.pos_line == 0 || is_empty p.pos_file)) [
        | inl h ↦ rw h (printed-nil g)
        | inr h ↦ rw h (
            ap (λ o. record g { output = g.output ++ o })
              (sym (append-nil (directive_text r g.project_dir p))))
      ]

  posed :
      (s : Bytes) (p : SourcePos) (g : Generator)
      → write_line s (emit_pos r p g) ≡ printed (directive p ∷ line g.indent s ∷ []) g
  posed s p g =
      ap (write_line s) (emit_pos-printed p g)
      ∙ write_line-printed s (printed (directive p ∷ []) g)
      ∙ printed-append (directive p ∷ []) (line g.indent s ∷ []) g

  write_lines-printed :
      (ss : List Bytes) (g : Generator) → write_lines ss g ≡ printed (map (line g.indent) ss) g
  unfolding write_lines
  write_lines-printed [] g = printed-nil g
  write_lines-printed (s ∷ ss) g =
      ap (write_lines ss) (write_line-printed s g)
      ∙ write_lines-printed ss (printed (line g.indent s ∷ []) g)
      ∙ printed-append (line g.indent s ∷ []) (map (line g.indent) ss) g

  outdented-printed :
      (ps : List Piece) (g : Generator) → outdented (printed ps (indented g)) ≡ printed ps g
  outdented-printed ps g = ap (λ i. record (printed ps g) { indent = i }) (omega arith)

  closed-printed :
      (head : Bytes) (b : Block) (g : Generator)
      → ((h : Generator) → emit_block r b h ≡ printed (block_pieces h.indent b) h)
      → write_line (codes "}") (outdented (emit_block r b (indented (write_line head g))))
        ≡ printed (closed g.indent head (block_pieces (g.indent + 1) b)) g
  closed-printed head b g ih =
      let open_line = line g.indent head ∷ [] in
      let close_line = line g.indent (codes "}") ∷ [] in
      let body = block_pieces (g.indent + 1) b in
      let g1 = printed open_line g in
      ap (λ m. write_line (codes "}") (outdented (emit_block r b (indented m))))
        (write_line-printed head g)
      ∙ ap (λ m. write_line (codes "}") (outdented m)) (ih (indented g1))
      ∙ ap (write_line (codes "}")) (outdented-printed body g1)
      ∙ write_line-printed (codes "}") (printed body g1)
      ∙ printed-append body close_line g1
      ∙ printed-append open_line (body ++ close_line) g

  mutual
    unfolding emit_node pieces

    -- The walk of a node writes the text of its pieces at the present indentation, and changes
    -- nothing else.
    emit_node-text : (n : Node) (g : Generator) → emit_node r n g ≡ printed (pieces g.indent n) g
    emit_node-text (block_node b) g = emit_block-text b g
    emit_node-text (assign names e walrus p) g = posed _ p g
    emit_node-text (var_decl name type value p) g = posed _ p g
    emit_node-text (if_err_check e b p) g =
        ap
          (λ m. write_line (codes "}") (
            outdented
              (emit_block r b (indented (write_line (codes "if " ++ e ++ codes " != nil {") m)))))
          (emit_pos-printed p g)
        ∙ closed-printed (codes "if " ++ e ++ codes " != nil {") b (printed (directive p ∷ []) g)
            (emit_block-text b)
        ∙ printed-append (directive p ∷ [])
            (closed g.indent (codes "if " ++ e ++ codes " != nil {")
              (block_pieces (g.indent + 1) b))
            g
    emit_node-text (goto name) g = write_line-printed _ g
    emit_node-text (label name) g = write_line-printed _ g
    emit_node-text (scoped_block b) g = closed-printed (codes "{") b g (emit_block-text b)
    emit_node-text (raw_stmt code p) g =
        ap (write_lines (split_lines code)) (emit_pos-printed p g)
        ∙ write_lines-printed (split_lines code) (printed (directive p ∷ []) g)
        ∙ printed-append (directive p ∷ []) (map (line g.indent) (split_lines code)) g
    emit_node-text (return_stmt values p) g = posed _ p g
    emit_node-text (expr_stmt e p) g = posed _ p g
    emit_node-text (comment text) g = write_line-printed _ g

    emit_block-text :
        (b : Block) (g : Generator) → emit_block r b g ≡ printed (block_pieces g.indent b) g
    emit_block-text nil_block g = printed-nil g
    emit_block-text (block ns) g = emit_nodes-text ns g

    emit_nodes-text :
        (ns : Nodes) (g : Generator) → emit_nodes r ns g ≡ printed (nodes_pieces g.indent ns) g
    emit_nodes-text no_nodes g = printed-nil g
    emit_nodes-text (node_then n ns) g =
        ap (emit_nodes r ns) (emit_node-text n g)
        ∙ emit_nodes-text ns (printed (pieces g.indent n) g)
        ∙ printed-append (pieces g.indent n) (nodes_pieces g.indent ns) g

  -- `emitIR` is its description without state: it appends the text of the pieces of the block at
  -- the present indentation, where directives print as nothing if they are stripped or have no
  -- position, and the indentation is in the end what it was.
  pub emit_block-printed :
      (b : Block) (g : Generator) → emit_block r b g ≡ printed (block_pieces g.indent b) g
  emit_block-printed b g = emit_block-text b g
