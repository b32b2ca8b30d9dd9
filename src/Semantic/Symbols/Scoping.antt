-- ===== src/Semantic/Symbols/Scoping.antt =====
-- Lexical scoping: what the analyzer may rely on, whatever it did with the table before.
use mathlib.Core.Option
use mathlib.Core.Path.{subst}
use kukicha.Prelude.{
  false, List, [], ◌∷◌, Option, none, some, ◌≡◌, refl, sym, ap, ◌∙◌, arith, if◌then◌else◌, Bytes,
  codes, same, some_injective, Bool-cases, inl, inr,
}
use kukicha.Semantic.Symbols.{
  Symbol, SymbolTable, find_symbol, DefineResult, no_error, define, resolve, enter_scope,
  exit_scope, new_symbol_table, read,
}
use kukicha.Semantic.Symbols.Chain.{IsTable, maps, look_through}
use kukicha.Semantic.Symbols.Resolution.{
  resolve-look_through, enter_scope-maps, exit_scope-maps, drop_map,
}
use kukicha.Semantic.Symbols.Declaration.{define-Defines, define_map, add_map}

-- The calls of the table's owner.
pub data Step : SymbolTable → SymbolTable → Type 0 where
  entering : (t : SymbolTable) → Step t (enter_scope t)
  exiting : (t : SymbolTable) → Step t (exit_scope t)
  defining :
      (y : Symbol) (t m : SymbolTable) (r : DefineResult) → define y t ≡ some (m, r) → Step t m

pub data Reachable : SymbolTable → Type 0 where
  start : Reachable new_symbol_table
  after : (t m : SymbolTable) → Reachable t → Step t m → Reachable m

pub new_symbol_table-IsTable : IsTable new_symbol_table
unfolding read
new_symbol_table-IsTable = record {
  chain = (
    record {
      scope = record { parent = none; symbols = [] };
      found = refl;
      linked = refl;
      above = tt;
    },
    tt,
  );
  innermost = 0;
  outer = [];
  is_open = refl;
}

defined-IsTable :
    (y : Symbol) (t m : SymbolTable) (r : DefineResult)
    → IsTable t
    → define y t ≡ some (m, r)
    → IsTable m × ((maps m, r) ≡ define_map y (maps t))
defined-IsTable y t m r v e =
    let d = define-Defines y t v in
    let same_end = some_injective (sym d.ran ∙ e) in
    (
      subst (λ (x : SymbolTable × DefineResult). IsTable x.0) same_end d.valid,
      subst (λ (x : SymbolTable × DefineResult). (maps x.0, x.1) ≡ define_map y (maps t)) same_end
          d.agrees,
    )

Step-IsTable : {t m : SymbolTable} → Step t m → IsTable t → IsTable m
Step-IsTable (entering t) v = (enter_scope-maps t v).0
Step-IsTable (exiting t) v = (exit_scope-maps t v).0
Step-IsTable (defining y t m r e) v = (defined-IsTable y t m r v e).0

Reachable-IsTable : {t : SymbolTable} → Reachable t → IsTable t
Reachable-IsTable start = new_symbol_table-IsTable
Reachable-IsTable (after t m h s) = Step-IsTable s (Reachable-IsTable h)

-- After any calls of the operations a scope is open, the open scopes form a chain of parents, and
-- `Resolve` ends without a nil pointer: it returns the declaration in the innermost open scope
-- that has one for the name, and nil where none has.
pub resolve-Reachable :
    (t : SymbolTable) (name : Bytes)
    → Reachable t
    → IsTable t × (resolve t name ≡ some (look_through (maps t) name))
resolve-Reachable t name h = let v = Reachable-IsTable h in (v, resolve-look_through t name v)

add_map-new :
    (y : Symbol) (m : List Symbol) (ms ns : List (List Symbol)) (found : Option Symbol)
    (name : Bytes)
    → (ns, no_error) ≡ add_map y m ms found
    → look_through ns name ≡ (if same y.name name then some y else look_through (m ∷ ms) name)
unfolding add_map look_through find_symbol
add_map-new y m ms ns (some z) name e = absurd (ground (arith, e))
add_map-new y m ms ns none name e =
    let e0 : ns ≡ (y ∷ m) ∷ ms = ap (λ (x : List (List Symbol) × DefineResult). x.0) e in
    rw e0 (elim (Bool-cases (same y.name name)) [ inl h ↦ rw h refl | inr h ↦ rw h refl ])

define_map-new :
    (y : Symbol) (m : List Symbol) (ms ns : List (List Symbol)) (name : Bytes)
    → same y.name (codes "_") ≡ false
    → (ns, no_error) ≡ define_map y (m ∷ ms)
    → look_through ns name ≡ (if same y.name name then some y else look_through (m ∷ ms) name)
unfolding define_map
define_map-new y m ms ns name named e =
    add_map-new y m ms ns (find_symbol m y.name) name (rw named at e)

maps-open :
    (t : SymbolTable)
    → IsTable t
    → (m : List Symbol) × (ms : List (List Symbol)) × (maps t ≡ m ∷ ms)
maps-open t v = rw v.is_open (_, _, refl)

-- If `Define` reports no error for a name other than `_`, then this name resolves to the new
-- symbol, and every other name to what it resolved to before.
pub resolve-define :
    (y : Symbol) (t m : SymbolTable) (name : Bytes)
    → IsTable t
    → same y.name (codes "_") ≡ false
    → define y t ≡ some (m, no_error)
    → resolve m name ≡ (if same y.name name then some (some y) else resolve t name)
resolve-define y t m name v named e =
    let (w, agrees) = defined-IsTable y t m no_error v e in
    let (top, outer, split) = maps-open t v in
    resolve-look_through m name w
    ∙ ap some (define_map-new y top outer (maps m) name named (agrees ∙ ap (define_map y) split))
    ∙ elim (Bool-cases (same y.name name)) [
      | inl h ↦ rw h refl
      | inr h ↦
          rw h
            (ap (λ n. some (look_through n name)) (sym split) ∙ sym (resolve-look_through t name v))
    ]

-- The declarations of a block, one after the other, whatever `Define` reports.
unfoldable pub declare_all : List Symbol → SymbolTable → Option SymbolTable
declare_all [] t = some t
declare_all (y ∷ ys) t = Option.bind (define y t) (λ r. declare_all ys r.0)

define_map-outer :
    (y : Symbol) (m : List Symbol) (ms : List (List Symbol))
    → (n : List Symbol) × ((define_map y (m ∷ ms)).0 ≡ n ∷ ms)
unfolding define_map add_map
define_map-outer y m ms = elim (Bool-cases (same y.name (codes "_"))) [
  | inl h ↦ rw h (m, refl)
  | inr h ↦ rw h (added (find_symbol m y.name))
]
  where
    added : (found : Option Symbol) → (n : List Symbol) × ((add_map y m ms found).0 ≡ n ∷ ms)
    added (some z) = (m, refl)
    added none = (y ∷ m, refl)

declare_all-outer :
    (ys : List Symbol) (t : SymbolTable) (m : List Symbol) (ms : List (List Symbol))
    → IsTable t
    → maps t ≡ m ∷ ms
    → (u : SymbolTable) × (n : List Symbol) × (declare_all ys t ≡ some u)
      × IsTable u
      × (maps u ≡ n ∷ ms)
unfolding declare_all Option.bind
declare_all-outer [] t m ms v e = (t, m, refl, v, e)
declare_all-outer (y ∷ ys) t m ms v e =
    let d = define-Defines y t v in
    let (n, kept) = define_map-outer y m ms in
    let left : maps d.after ≡ n ∷ ms =
      ap (λ (x : List (List Symbol) × DefineResult). x.0) (d.agrees ∙ ap (define_map y) e) ∙ kept in
    let (u, k, ran, w, f) = declare_all-outer ys d.after n ms d.valid left in
    (u, k, rw d.ran ran, w, f)

drop_map-open :
    (m : List Symbol) (ms : List (List Symbol)) (t : SymbolTable)
    → IsTable t
    → maps t ≡ ms
    → drop_map (m ∷ ms) ≡ ms
drop_map-open m [] t v e = absurd (let (a, b, split) = maps-open t v in ground (arith, e, split))
drop_map-open m (n ∷ ms) t v e = refl

-- A block leaves no trace: if a scope is entered, any symbols are declared in it and it is left,
-- then no call of `Define` met a nil pointer and every name resolves as before.
pub resolve-block :
    (ys : List Symbol) (t : SymbolTable) (name : Bytes)
    → IsTable t
    → (u : SymbolTable) × (declare_all ys (enter_scope t) ≡ some u)
      × (resolve (exit_scope u) name ≡ resolve t name)
resolve-block ys t name v =
    let (w, entered) = enter_scope-maps t v in
    let (u, n, ran, z, e) = declare_all-outer ys (enter_scope t) [] (maps t) w entered in
    let (x, left) = exit_scope-maps u z in
    (
      u,
      ran,
      resolve-look_through (exit_scope u) name x
          ∙ ap (λ ms. some (look_through ms name))
              (left ∙ ap drop_map e ∙ drop_map-open n (maps t) t v refl)
          ∙ sym (resolve-look_through t name v),
    )
