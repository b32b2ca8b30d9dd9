-- ===== src/Semantic/Symbols.antt =====
-- internal/semantic/symbols.go: symbols, scopes and the table that stacks the scopes.
-- Scopes are shared: a scope points to the one around it, and the table to each open one. So the
-- scopes are cells of a store, and a pointer is the number of cells that are older. What a
-- symbol's type information holds the table never reads: `type` is the pointer.
pub mod Store
pub mod Chain
pub mod Resolution
pub mod Declaration
pub mod Scoping
use mathlib.Core.Option
use kukicha.Prelude.{
  ℕ, zero, suc, ◌+◌, Bool, true, false, ◌&&◌, not, String, List, [], ◌∷◌, Option, none, some,
  length, ◌==◌, if◌then◌else◌, Bytes, codes, same, rest_of,
}

pub data SymbolKind : Type 0 where
  symbol_variable : SymbolKind
  symbol_parameter : SymbolKind
  symbol_function : SymbolKind
  symbol_type : SymbolKind
  symbol_interface : SymbolKind
  symbol_const : SymbolKind

-- `SymbolKind.String`
unfoldable pub kind_name : SymbolKind → String
kind_name symbol_variable = "variable"
kind_name symbol_parameter = "parameter"
kind_name symbol_function = "function"
kind_name symbol_type = "type"
kind_name symbol_interface = "interface"
kind_name symbol_const = "constant"

pub record Position : Type 0 where
  pub line : ℕ
  pub column : ℕ
  pub file : String

pub record Symbol : Type 0 where
  pub name : Bytes
  pub kind : SymbolKind
  pub type : Option ℕ
  pub defined : Position
  pub mutable : Bool
  pub exported : Bool

-- `symbols` is the map of the scope: each name stands in it once, the last one defined first.
pub record Scope : Type 0 where
  pub parent : Option ℕ
  pub symbols : List Symbol

-- The cells, the newest first, and the open scopes, the innermost first.
pub record SymbolTable : Type 0 where
  pub cells : List Scope
  pub scopes : List ℕ

unfoldable pub read : List Scope → ℕ → Option Scope
read [] a = none
read (s ∷ older) a = if a == length older then some s else read older a

unfoldable pub write : List Scope → ℕ → Scope → List Scope
write [] a v = []
write (s ∷ older) a v = if a == length older then v ∷ older else s ∷ write older a v

-- `s.symbols[name]`
unfoldable pub find_symbol : List Symbol → Bytes → Option Symbol
find_symbol [] name = none
find_symbol (y ∷ ys) name = if same y.name name then some y else find_symbol ys name

-- What `Define` returns: no error, or the one that names what is declared already.
pub data DefineResult : Type 0 where
  no_error : DefineResult
  already_declared : Bytes → DefineResult

add_to : ℕ → Scope → Symbol → Option Symbol → SymbolTable → SymbolTable × DefineResult
add_to a s y (some z) t = (t, already_declared y.name)
add_to a s y none t =
    (record t { cells = write t.cells a (record s { symbols = y ∷ s.symbols }) }, no_error)

-- `Scope.Define` on a pointer to a scope; `none` stands for the panic on nil.
unfoldable pub define_in : Option ℕ → Symbol → SymbolTable → Option (SymbolTable × DefineResult)
unfolding add_to
define_in p y t =
    if same y.name (codes "_")
    then some (t, no_error)
    else Option.bind p
        (λ a. Option.map (λ s. add_to a s y (find_symbol s.symbols y.name) t) (read t.cells a))

-- `Scope.Resolve` in one cell, where `go` goes on in the parent.
or_outer : (ℕ → Option (Option Symbol)) → Option ℕ → Option Symbol → Option (Option Symbol)
or_outer go parent (some y) = some (some y)
or_outer go (some p) none = go p
or_outer go none none = some none

-- `Scope.Resolve`, on fuel; `none` stands for a nil pointer or no fuel, `some none` for nil.
unfoldable pub resolve_in : ℕ → List Scope → ℕ → Bytes → Option (Option Symbol)
unfolding or_outer
resolve_in zero cells a name = none
resolve_in (suc fuel) cells a name =
    Option.bind (read cells a)
      (λ s. or_outer (λ p. resolve_in fuel cells p name) s.parent (find_symbol s.symbols name))

-- `CurrentScope`; `none` stands for nil.
abbrev pub current_scope : List ℕ → Option ℕ
current_scope [] = none
current_scope (a ∷ scopes) = some a

-- `EnterScope`: `NewScope` allocates the cell.
unfoldable pub enter_scope : SymbolTable → SymbolTable
enter_scope t = record t {
  cells = record { parent = current_scope t.scopes; symbols = [] } ∷ t.cells;
  scopes = length t.cells ∷ t.scopes;
}

-- `NewSymbolTable`
abbrev pub new_symbol_table : SymbolTable
new_symbol_table = record { cells = record { parent = none; symbols = [] } ∷ []; scopes = 0 ∷ [] }

pop_scope : List ℕ → List ℕ
pop_scope [] = []
pop_scope (a ∷ []) = a ∷ []
pop_scope (a ∷ b ∷ scopes) = b ∷ scopes

-- `ExitScope`: the last scope is never removed.
unfoldable pub exit_scope : SymbolTable → SymbolTable
unfolding pop_scope
exit_scope t = record t { scopes = pop_scope t.scopes }

-- `SymbolTable.Define`
unfoldable pub define : Symbol → SymbolTable → Option (SymbolTable × DefineResult)
define y t = define_in (current_scope t.scopes) y t

-- `SymbolTable.Resolve`. A parent is older than its scope, so the cells are fuel enough.
unfoldable pub resolve : SymbolTable → Bytes → Option (Option Symbol)
resolve t name =
    Option.bind (current_scope t.scopes) (λ a. resolve_in (length t.cells) t.cells a name)
