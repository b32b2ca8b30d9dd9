-- ===== src/Codegen/Emit.antt =====
-- internal/codegen/emit.go, with `writeLine` of codegen.go: the walk that writes the Go text.
-- `relative` stands for `filepath.Rel` and `filepath.ToSlash`: a directory and a file to the path
-- of the file within it, if there is one.

pub mod Text
pub mod Breaks
pub mod Margin
use kukicha.Prelude.{
  ℕ, zero, suc, ◌+◌, ◌-◌, ◌/◌, ◌%◌, Bool, true, false, ◌||◌, List, [], ◌∷◌, ◌++◌, Option, none,
  some, Bytes, codes, ltb, ◌==◌, if◌then◌else◌, is_empty,
}
use kukicha.Lexer.Strings.Dedent.{split_lines}
use kukicha.Codegen.Ir.{
  SourcePos, Node, Block, Nodes, block_node, assign, var_decl, if_err_check, goto, label,
  scoped_block, raw_stmt, return_stmt, expr_stmt, comment, nil_block, block, no_nodes, node_then,
}

-- The fields of `Generator` that the walk uses.
pub record Generator : Type 0 where
  pub output : Bytes
  pub indent : ℕ
  pub strip_line_directives : Bool
  pub project_dir : Bytes

-- `%d` of a natural number; a number has at most as many digits as it counts, and one more.
unfoldable pub digits : ℕ → ℕ → Bytes → Bytes
digits zero n ds = ds
digits (suc f) n ds =
    let more = digits f (n / 10) ((b'0' + n % 10) ∷ ds) in
    if ltb n 10 then (b'0' + n) ∷ ds else more

-- `strings.Join`
unfoldable pub join_strings : List Bytes → Bytes → Bytes
join_strings [] sep = []
join_strings (s ∷ []) sep = s
join_strings (s ∷ t ∷ ss) sep = s ++ sep ++ join_strings (t ∷ ss) sep

unfoldable pub tabs : ℕ → Bytes
tabs zero = []
tabs (suc n) = 9 ∷ tabs n

-- What `writeLine` writes at an indentation.
unfoldable pub line_text : ℕ → Bytes → Bytes
unfolding tabs
line_text n s = (if is_empty s then [] else tabs n ++ s) ++ 10 ∷ []

-- `write`
abbrev pub write_text : Bytes → Generator → Generator
write_text s g = record g { output = g.output ++ s }

-- `writeLine`
unfoldable pub write_line : Bytes → Generator → Generator
write_line s g = write_text (line_text g.indent s) g

abbrev pub or_same : Bytes → Option Bytes → Bytes
or_same file none = file
or_same file (some path) = path

unfoldable pub directive_text : (Bytes → Bytes → Option Bytes) → Bytes → SourcePos → Bytes
unfolding digits
directive_text relative dir p =
    let file = if is_empty dir then p.pos_file else or_same p.pos_file (relative dir p.pos_file) in
    codes "//line " ++ file ++ b':' ∷ digits (suc p.pos_line) p.pos_line [] ++ 10 ∷ []

-- `emitIRPos`
unfoldable pub emit_pos : (Bytes → Bytes → Option Bytes) → SourcePos → Generator → Generator
emit_pos relative p g =
    if g.strip_line_directives || p.pos_line == 0 || is_empty p.pos_file
    then g
    else write_text (directive_text relative g.project_dir p) g

unfoldable pub write_lines : List Bytes → Generator → Generator
write_lines [] g = g
write_lines (s ∷ ss) g = write_lines ss (write_line s g)

abbrev pub indented : Generator → Generator
indented g = record g { indent = g.indent + 1 }

abbrev pub outdented : Generator → Generator
outdented g = record g { indent = g.indent - 1 }

unfoldable mutual
  -- `emitIRNode`
  pub emit_node : (Bytes → Bytes → Option Bytes) → Node → Generator → Generator
  emit_node r (block_node b) g = emit_block r b g
  emit_node r (assign names e walrus p) g =
      write_line (join_strings names (codes ", ") ++ codes (if walrus then " := " else " = ") ++ e)
        (emit_pos r p g)
  emit_node r (var_decl name type value p) g =
      write_line
        (codes "var "
          ++ name
          ++ b' ' ∷ type
          ++ (if is_empty value then [] else codes " = " ++ value))
        (emit_pos r p g)
  emit_node r (if_err_check e b p) g =
      let g1 = write_line (codes "if " ++ e ++ codes " != nil {") (emit_pos r p g) in
      write_line (codes "}") (outdented (emit_block r b (indented g1)))
  emit_node r (goto name) g = write_line (codes "goto " ++ name) g
  emit_node r (label name) g = write_line (name ++ b':' ∷ []) g
  emit_node r (scoped_block b) g =
      write_line (codes "}") (outdented (emit_block r b (indented (write_line (codes "{") g))))
  emit_node r (raw_stmt code p) g = write_lines (split_lines code) (emit_pos r p g)
  emit_node r (return_stmt values p) g =
      write_line
        (if is_empty values
          then codes "return"
          else codes "return " ++ join_strings values (codes ", "))
        (emit_pos r p g)
  emit_node r (expr_stmt e p) g = write_line e (emit_pos r p g)
  emit_node r (comment text) g = write_line (codes "// " ++ text) g

  -- `emitIR`
  pub emit_block : (Bytes → Bytes → Option Bytes) → Block → Generator → Generator
  emit_block r nil_block g = g
  emit_block r (block ns) g = emit_nodes r ns g

  pub emit_nodes : (Bytes → Bytes → Option Bytes) → Nodes → Generator → Generator
  emit_nodes r no_nodes g = g
  emit_nodes r (node_then n ns) g = emit_nodes r ns (emit_node r n g)
