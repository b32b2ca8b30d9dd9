-- ===== src/Semantic/Symbols/Chain.antt =====
-- The open scopes form a chain: each points to the one that it was opened in. The table then is a
-- stack of maps.
use kukicha.Prelude.{ℕ, ◌<◌, List, [], ◌∷◌, Option, none, some, ◌≡◌, refl, ◌∙◌, arith, Bytes}
use kukicha.Semantic.Symbols.{Scope, Symbol, SymbolTable, read, current_scope, find_symbol}

-- The address lies above those of a chain.
abbrev pub IsAbove : ℕ → List ℕ → Type 0
IsAbove a [] = Unit
IsAbove a (b ∷ scopes) = b < a

-- The scope at `a` was opened in the innermost of the others.
pub record IsLink (cells : List Scope) (a : ℕ) (scopes : List ℕ) : Type 0 where
  pub scope : Scope
  pub found : read cells a ≡ some scope
  pub linked : scope.parent ≡ current_scope scopes
  pub above : IsAbove a scopes

abbrev pub IsChain : List Scope → List ℕ → Type 0
IsChain cells [] = Unit
IsChain cells (a ∷ scopes) = IsLink cells a scopes × IsChain cells scopes

-- A table with a scope that is open, and with linked scopes.
pub record IsTable (t : SymbolTable) : Type 0 where
  pub chain : IsChain t.cells t.scopes
  pub innermost : ℕ
  pub outer : List ℕ
  pub is_open : t.scopes ≡ innermost ∷ outer

abbrev pub symbols_of : Option Scope → List Symbol
symbols_of none = []
symbols_of (some s) = s.symbols

-- The maps of the open scopes, the innermost first.
abbrev pub maps_of : List Scope → List ℕ → List (List Symbol)
maps_of cells [] = []
maps_of cells (a ∷ scopes) = symbols_of (read cells a) ∷ maps_of cells scopes

abbrev pub maps : SymbolTable → List (List Symbol)
maps t = maps_of t.cells t.scopes

-- The declaration in the innermost map that has one.
abbrev pub first_in : Option Symbol → Option Symbol → Option Symbol
first_in (some y) later = some y
first_in none later = later

unfoldable pub look_through : List (List Symbol) → Bytes → Option Symbol
look_through [] name = none
look_through (m ∷ ms) name = first_in (find_symbol m name) (look_through ms name)

-- Two stores that agree below `bound` hold the same chains below it.
abbrev pub Agrees : List Scope → List Scope → ℕ → Type 0
Agrees cells others bound = (b : ℕ) → b < bound → read others b ≡ read cells b

pub IsChain-Agrees :
    (cells others : List Scope) (scopes : List ℕ) (bound : ℕ)
    → Agrees cells others bound
    → IsAbove bound scopes
    → IsChain cells scopes
    → IsChain others scopes × (maps_of others scopes ≡ maps_of cells scopes)
IsChain-Agrees cells others [] bound same above c = (tt, refl)
IsChain-Agrees cells others (a ∷ []) bound same above (link, c) = (
  (
    record {
      scope = link.scope;
      found = same a above ∙ link.found;
      linked = link.linked;
      above = tt;
    },
    tt,
  ),
  rw (same a above) refl,
)
IsChain-Agrees cells others (a ∷ b ∷ scopes) bound same above (link, c) =
    let (d, e) =
      IsChain-Agrees cells others (b ∷ scopes) bound same (omega (arith, above, link.above)) c in
    (
      (
        record {
          scope = link.scope;
          found = same a above ∙ link.found;
          linked = link.linked;
          above = link.above;
        },
        d,
      ),
      rw (same a above, e) refl,
    )
