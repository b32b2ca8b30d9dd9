-- ===== src/Tests/Tables.antt =====
-- The symbol table on a few symbols.
use mathlib.Core.Option
use kukicha.Prelude.{true, false, [], ◌∷◌, none, some, ◌≡◌, refl, codes, Bytes, same}
use kukicha.Semantic.Symbols.{
  Symbol, SymbolTable, symbol_variable, no_error, define, define_in, resolve, read, write,
  find_symbol, enter_scope, exit_scope, new_symbol_table,
}
use kukicha.Semantic.Symbols.Chain.{IsTable, maps, look_through}
use kukicha.Semantic.Symbols.Resolution.{enter_scope-maps, exit_scope-maps, drop_map}
use kukicha.Semantic.Symbols.Declaration.{Defines, define-Defines}
use kukicha.Semantic.Symbols.Scoping.{
  Reachable, start, after, entering, new_symbol_table-IsTable, resolve-Reachable, resolve-define,
  resolve-block, declare_all,
}

abbrev symbol : Bytes → Symbol
symbol n = record {
  name = n;
  kind = symbol_variable;
  type = none;
  defined = record { line = 1; column = 1; file = "a.kuki" };
  mutable = true;
  exported = false;
}

abbrev with_x : SymbolTable
with_x = record {
  cells = record { parent = none; symbols = symbol (codes "x") ∷ [] } ∷ [];
  scopes = 0 ∷ [];
}

define_x : define (symbol (codes "x")) new_symbol_table ≡ some (with_x, no_error)
unfolding define define_in same read write find_symbol Option.bind
define_x = refl

with_x-IsTable : IsTable with_x
unfolding read
with_x-IsTable = record {
  chain = (
    record {
      scope = record { parent = none; symbols = symbol (codes "x") ∷ [] };
      found = refl;
      linked = refl;
      above = tt;
    },
    tt,
  );
  innermost = 0;
  outer = [];
  is_open = refl;
}

resolve-define_example : resolve with_x (codes "y") ≡ resolve new_symbol_table (codes "y")
unfolding same
resolve-define_example =
    resolve-define (symbol (codes "x")) new_symbol_table with_x (codes "y") new_symbol_table-IsTable
      refl define_x

abbrev inner : SymbolTable
inner = enter_scope new_symbol_table

inner-Reachable : Reachable inner
inner-Reachable = after new_symbol_table inner start (entering new_symbol_table)

resolve-Reachable_example :
    IsTable inner × (resolve inner (codes "x") ≡ some (look_through (maps inner) (codes "x")))
resolve-Reachable_example = resolve-Reachable inner (codes "x") inner-Reachable

define-Defines_example : Defines (symbol (codes "x")) new_symbol_table
define-Defines_example =
    define-Defines (symbol (codes "x")) new_symbol_table new_symbol_table-IsTable

enter_scope-maps_example :
    IsTable (enter_scope new_symbol_table)
    × (maps (enter_scope new_symbol_table) ≡ [] ∷ maps new_symbol_table)
enter_scope-maps_example = enter_scope-maps new_symbol_table new_symbol_table-IsTable

exit_scope-maps_example :
    IsTable (exit_scope new_symbol_table)
    × (maps (exit_scope new_symbol_table) ≡ drop_map (maps new_symbol_table))
exit_scope-maps_example = exit_scope-maps new_symbol_table new_symbol_table-IsTable

resolve-block_example :
    (u : SymbolTable) × (declare_all
        (symbol (codes "x") ∷ symbol (codes "x") ∷ [])
        (enter_scope with_x)
      ≡ some u)
    × (resolve (exit_scope u) (codes "x") ≡ resolve with_x (codes "x"))
resolve-block_example =
    resolve-block (symbol (codes "x") ∷ symbol (codes "x") ∷ []) with_x (codes "x") with_x-IsTable
