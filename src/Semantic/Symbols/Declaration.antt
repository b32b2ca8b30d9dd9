-- ===== src/Semantic/Symbols/Declaration.antt =====
-- `Define`, against a stack of maps.
use mathlib.Core.Option
use kukicha.Prelude.{
  ℕ, List, [], ◌∷◌, Option, none, some, ◌≡◌, refl, ◌∙◌, arith, if◌then◌else◌, codes, same,
  Bool-cases, inl, inr,
}
use kukicha.Semantic.Symbols.{
  Scope, Symbol, SymbolTable, write, find_symbol, DefineResult, no_error, already_declared, add_to,
  define_in, define,
}
use kukicha.Semantic.Symbols.Store.{read-bound, read-write, read-write_other}
use kukicha.Semantic.Symbols.Chain.{IsLink, IsChain, IsTable, maps_of, maps, IsChain-Agrees}

unfoldable pub add_map :
    Symbol → List Symbol → List (List Symbol) → Option Symbol → List (List Symbol) × DefineResult
add_map y m ms (some z) = (m ∷ ms, already_declared y.name)
add_map y m ms none = ((y ∷ m) ∷ ms, no_error)

-- `Define` on a stack of maps: into the innermost one, unless the name stands in it.
unfoldable pub define_map : Symbol → List (List Symbol) → List (List Symbol) × DefineResult
unfolding add_map
define_map y [] = ([], no_error)
define_map y (m ∷ ms) =
    if same y.name (codes "_") then (m ∷ ms, no_error) else add_map y m ms (find_symbol m y.name)

-- A table that an operation left, with what the operation returned.
pub record Defines (y : Symbol) (t : SymbolTable) : Type 0 where
  pub after : SymbolTable
  pub result : DefineResult
  pub ran : define y t ≡ some (after, result)
  pub valid : IsTable after
  pub agrees : (maps after, result) ≡ define_map y (maps t)

write-IsChain :
    (cells : List Scope) (a : ℕ) (outer : List ℕ) (link : IsLink cells a outer) (ys : List Symbol)
    → IsChain cells outer
    → let others = write cells a (record link.scope { symbols = ys }) in
      IsChain others (a ∷ outer) × (maps_of others (a ∷ outer) ≡ ys ∷ maps_of cells outer)
write-IsChain cells a outer link ys c =
    let v = record link.scope { symbols = ys } in
    let new = read-write cells a v (read-bound cells a link.scope link.found) in
    let (d, kept) =
      IsChain-Agrees cells (write cells a v) outer a
        (λ b below. read-write_other cells a b v (λ same. omega (arith, below, same))) link.above
        c in
    (
      (record { scope = v; found = new; linked = link.linked; above = link.above }, d),
      rw (new, kept) refl,
    )

abbrev table : List Scope → ℕ → List ℕ → SymbolTable
table cells a outer = record { cells = cells; scopes = a ∷ outer }

-- The two ways of `Define` in the innermost scope.
add_to-maps :
    (y : Symbol) (cells : List Scope) (a : ℕ) (outer : List ℕ) (link : IsLink cells a outer)
    (found : Option Symbol)
    → IsChain cells outer
    → let m = add_to a link.scope y found (table cells a outer) in
      IsTable m.0 × ((maps m.0, m.1) ≡ add_map y link.scope.symbols (maps_of cells outer) found)
unfolding add_to add_map
add_to-maps y cells a outer link (some z) c =
    (record { chain = (link, c); innermost = a; outer = outer; is_open = refl }, rw link.found refl)
add_to-maps y cells a outer link none c =
    let (d, e) = write-IsChain cells a outer link (y ∷ link.scope.symbols) c in
    (record { chain = d; innermost = a; outer = outer; is_open = refl }, rw e refl)

define_open :
    (y : Symbol) (cells : List Scope) (a : ℕ) (outer : List ℕ)
    → IsChain cells (a ∷ outer)
    → Defines y (table cells a outer)
define_open y cells a outer (link, c) = elim (Bool-cases (same y.name (codes "_"))) [
  | inl blank ↦ record {
    after = table cells a outer;
    result = no_error;
    ran = unfold define define_in in rw blank refl;
    valid = record { chain = (link, c); innermost = a; outer = outer; is_open = refl };
    agrees = unfold define_map in rw blank refl;
  }
  | inr named ↦
      let found = find_symbol link.scope.symbols y.name in
      let m = add_to a link.scope y found (table cells a outer) in
      let (v, e) = add_to-maps y cells a outer link found c in
      record {
        after = m.0;
        result = m.1;
        ran = unfold define define_in Option.bind in rw named (rw link.found refl);
        valid = v;
        agrees = e ∙ (unfold define_map in rw named (rw link.found refl));
      }
]

-- In every table with an open scope `Define` returns, and does to the maps what `define_map` does.
pub define-Defines : (y : Symbol) (t : SymbolTable) → IsTable t → Defines y t
define-Defines y t v =
    let c : IsChain t.cells (v.innermost ∷ v.outer) = rw v.is_open at v.chain in
    rw v.is_open (define_open y t.cells v.innermost v.outer c)
