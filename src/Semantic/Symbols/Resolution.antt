-- ===== src/Semantic/Symbols/Resolution.antt =====
-- The operations of the table, against a stack of maps.
use mathlib.Core.Option
use kukicha.Prelude.{
  ℕ, zero, suc, ◌<◌, List, [], ◌∷◌, Option, none, some, ◌≡◌, refl, ◌∙◌, arith, length, Bytes,
}
use kukicha.Semantic.Symbols.{
  Scope, Symbol, SymbolTable, current_scope, find_symbol, or_outer, resolve_in, resolve,
  enter_scope, exit_scope, pop_scope,
}
use kukicha.Semantic.Symbols.Store.{read-bound, read-older, read-newest}
use kukicha.Semantic.Symbols.Chain.{
  IsAbove, IsLink, IsChain, IsTable, maps_of, maps, first_in, look_through, IsChain-Agrees,
}

in_cell :
    (fuel : ℕ) (cells : List Scope) (a : ℕ) (scopes : List ℕ) (name : Bytes)
    (link : IsLink cells a scopes)
    → resolve_in (suc fuel) cells a name
      ≡ or_outer
          (λ p. resolve_in fuel cells p name)
          (current_scope scopes)
          (find_symbol link.scope.symbols name)
unfolding resolve_in Option.bind find_symbol
in_cell fuel cells a scopes name link = rw link.found (rw link.linked refl)

next_out :
    (go : ℕ → Option (Option Symbol)) (b : ℕ) (found later : Option Symbol)
    → go b ≡ some later
    → or_outer go (some b) found ≡ some (first_in found later)
unfolding or_outer
next_out go b (some y) later e = refl
next_out go b none later e = e

last_out :
    (go : ℕ → Option (Option Symbol)) (found : Option Symbol)
    → or_outer go none found ≡ some (first_in found none)
unfolding or_outer
last_out go (some y) = refl
last_out go none = refl

resolve_in-look_through :
    (fuel : ℕ) (cells : List Scope) (a : ℕ) (scopes : List ℕ) (name : Bytes)
    → IsChain cells (a ∷ scopes)
    → a < fuel
    → resolve_in fuel cells a name ≡ some (look_through (maps_of cells (a ∷ scopes)) name)
unfolding look_through
resolve_in-look_through zero cells a scopes name c h = absurd (omega arith)
resolve_in-look_through (suc fuel) cells a [] name (link, c) h =
    in_cell fuel cells a [] name link
    ∙ last_out _ (find_symbol link.scope.symbols name)
    ∙ rw link.found refl
resolve_in-look_through (suc fuel) cells a (b ∷ outer) name (link, c) h =
    in_cell fuel cells a (b ∷ outer) name link
    ∙ next_out (λ p. resolve_in fuel cells p name) b (find_symbol link.scope.symbols name) _
        (resolve_in-look_through fuel cells b outer name c (omega (arith, link.above)))
    ∙ rw link.found refl

-- The pointers lead `Resolve` through the maps of the open scopes, from the innermost outwards.
pub resolve-look_through :
    (t : SymbolTable) (name : Bytes)
    → IsTable t
    → resolve t name ≡ some (look_through (maps t) name)
unfolding resolve Option.bind
resolve-look_through t name v =
    let c : IsChain t.cells (v.innermost ∷ v.outer) = rw v.is_open at v.chain in
    rw v.is_open (
      resolve_in-look_through (length t.cells) t.cells v.innermost v.outer name c
        (read-bound t.cells v.innermost c.0.scope c.0.found))

IsAbove-length :
    (cells : List Scope) (scopes : List ℕ) → IsChain cells scopes → IsAbove (length cells) scopes
IsAbove-length cells [] c = tt
IsAbove-length cells (a ∷ scopes) (link, c) = read-bound cells a link.scope link.found

-- `EnterScope` opens an empty map inside the others.
pub enter_scope-maps :
    (t : SymbolTable) → IsTable t → IsTable (enter_scope t) × (maps (enter_scope t) ≡ [] ∷ maps t)
unfolding enter_scope
enter_scope-maps t v =
    let n = length t.cells in
    let cell : Scope = record { parent = current_scope t.scopes; symbols = [] } in
    let above = IsAbove-length t.cells t.scopes v.chain in
    let (c, same_maps) =
      IsChain-Agrees t.cells (cell ∷ t.cells) t.scopes n (read-older cell t.cells) above v.chain in
    let new = read-newest cell t.cells in
    (
      record {
        chain = (record { scope = cell; found = new; linked = refl; above = above }, c);
        innermost = n;
        outer = t.scopes;
        is_open = refl;
      },
      rw (new, same_maps) refl,
    )

-- What is left of a stack of maps once its innermost scope is left.
abbrev pub drop_map : List (List Symbol) → List (List Symbol)
drop_map [] = []
drop_map (m ∷ []) = m ∷ []
drop_map (m ∷ n ∷ ms) = n ∷ ms

pop_scope-chain :
    (cells : List Scope) (a : ℕ) (outer : List ℕ)
    → IsChain cells (a ∷ outer)
    → IsTable (record { cells = cells; scopes = pop_scope (a ∷ outer) })
      × (maps_of cells (pop_scope (a ∷ outer)) ≡ drop_map (maps_of cells (a ∷ outer)))
unfolding pop_scope
pop_scope-chain cells a [] c =
    (record { chain = c; innermost = a; outer = []; is_open = refl }, refl)
pop_scope-chain cells a (b ∷ outer) (link, c) =
    (record { chain = c; innermost = b; outer = outer; is_open = refl }, refl)

-- `ExitScope` drops the innermost map, unless it is the only one.
pub exit_scope-maps :
    (t : SymbolTable)
    → IsTable t
    → IsTable (exit_scope t) × (maps (exit_scope t) ≡ drop_map (maps t))
unfolding exit_scope
exit_scope-maps t v =
    let c : IsChain t.cells (v.innermost ∷ v.outer) = rw v.is_open at v.chain in
    rw v.is_open (pop_scope-chain t.cells v.innermost v.outer c)
