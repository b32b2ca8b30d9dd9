-- ===== src/Tests/Blocks.antt =====
-- The walk over a block with an error check.
use kukicha.Prelude.{true, false, List, [], ◌∷◌, Option, none, ◌≡◌, refl, Bytes, codes}
use kukicha.Lexer.Strings.Dedent.{split_lines}
use kukicha.Codegen.Ir.{
  SourcePos, Block, Nodes, raw_stmt, label, assign, if_err_check, return_stmt, block, no_nodes,
  node_then, add_all,
}
use kukicha.Codegen.Emit.{
  Generator, emit_node, emit_block, emit_nodes, write_line, emit_pos, line_text, join_strings,
  directive_text, write_text, write_lines,
}
use kukicha.Codegen.Emit.Text.{printed, block_pieces, emit_block-printed}
use kukicha.Codegen.Emit.Breaks.{All}
use kukicha.Codegen.Emit.Margin.{IsLine, lines_text, emit_block-lines}

abbrev no_path : Bytes → Bytes → Option Bytes
no_path dir file = none

abbrev here : SourcePos
here = record { pos_line = 12; pos_file = codes "a.kuki" }

abbrev nowhere : SourcePos
nowhere = record { pos_line = 0; pos_file = [] }

abbrev call : Nodes
call = node_then (assign (codes "v" ∷ codes "err" ∷ []) (codes "f()") true here) no_nodes

abbrev check : Block
check = block (
    node_then
      (if_err_check (codes "err")
        (block (node_then (return_stmt (codes "err" ∷ []) nowhere) no_nodes)) nowhere)
      no_nodes)

abbrev empty_output : Generator
empty_output = record { output = []; indent = 0; strip_line_directives = false; project_dir = [] }

emit_call :
    (emit_nodes no_path call empty_output).output ≡ codes "//line a.kuki:12\nv, err := f()\n"
unfolding emit_node write_line emit_pos line_text join_strings directive_text
emit_call = refl

emit_check :
    (emit_block no_path check empty_output).output ≡ codes "if err != nil {\n\treturn err\n}\n"
unfolding emit_node write_line emit_pos line_text join_strings
emit_check = refl

emit_block-printed_example :
    emit_block no_path check empty_output
    ≡ printed no_path (block_pieces empty_output.indent check) empty_output
emit_block-printed_example = emit_block-printed no_path check empty_output

-- A raw statement of two lines and a label within an error check, a tab from the left.
abbrev nested : Block
nested = block (
    node_then
      (if_err_check (codes "err")
        (block (
          node_then (raw_stmt (codes "f()\n\ng()") here)
            (node_then (label (codes "done")) no_nodes)))
        here)
      no_nodes)

abbrev stripped : Generator
stripped = record { output = []; indent = 1; strip_line_directives = true; project_dir = [] }

emit_nested :
    (emit_block no_path nested stripped).output
    ≡ codes "\tif err != nil {\n\t\tf()\n\n\t\tg()\n\t\tdone:\n\t}\n"
unfolding emit_node write_line emit_pos line_text split_lines write_lines
emit_nested = refl

emit_added :
    (emit_nodes no_path (add_all call check) empty_output).output
    ≡ codes "//line a.kuki:12\nv, err := f()\nif err != nil {\n\treturn err\n}\n"
unfolding emit_node write_line emit_pos line_text join_strings directive_text add_all
emit_added = refl

emit_block-lines_example :
    (ls : List Bytes) × (emit_block no_path nested stripped ≡ write_text (lines_text ls) stripped)
    × All (IsLine stripped.indent) ls
emit_block-lines_example = emit_block-lines no_path nested stripped refl refl
