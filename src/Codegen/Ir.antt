-- ===== src/Codegen/Ir.antt =====
-- internal/ir/ir.go: the nodes between the syntax tree and the text of the Go program.
-- Text is bytes. A block is built before it is walked, so it is a value here, or nil.
use kukicha.Prelude.{ℕ, Bool, List, Bytes}

pub record SourcePos : Type 0 where
  pub pos_line : ℕ
  pub pos_file : Bytes

mutual
  pub data Node : Type 0 where
    block_node : Block → Node
    assign : List Bytes → Bytes → Bool → SourcePos → Node
    var_decl : Bytes → Bytes → Bytes → SourcePos → Node
    if_err_check : Bytes → Block → SourcePos → Node
    goto : Bytes → Node
    label : Bytes → Node
    scoped_block : Block → Node
    raw_stmt : Bytes → SourcePos → Node
    return_stmt : List Bytes → SourcePos → Node
    expr_stmt : Bytes → SourcePos → Node
    comment : Bytes → Node

  pub data Block : Type 0 where
    nil_block : Block
    block : Nodes → Block

  pub data Nodes : Type 0 where
    no_nodes : Nodes
    node_then : Node → Nodes → Nodes

unfoldable pub append_nodes : Nodes → Nodes → Nodes
append_nodes no_nodes ms = ms
append_nodes (node_then n ns) ms = node_then n (append_nodes ns ms)

-- `Block.Add`, on a block that is not nil.
unfoldable pub add : Nodes → Node → Nodes
unfolding append_nodes
add ns n = append_nodes ns (node_then n no_nodes)

-- `Block.AddAll`, on a block that is not nil.
unfoldable pub add_all : Nodes → Block → Nodes
unfolding append_nodes
add_all ns nil_block = ns
add_all ns (block ms) = append_nodes ns ms
