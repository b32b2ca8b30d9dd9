-- ===== src/Blend/Apply/Order.antt =====
-- internal/blend/apply.go: the order in which `Apply` takes the suggestions.
use mathlib.Core.List.{Memᴰ}
use kukicha.Prelude.{◌≤◌, ◌≡◌, true, false, List, [], ◌∷◌, inl, inr, Bool-cases, arith}
use kukicha.Blend.Suggestion.{Suggestion}
use kukicha.Blend.Apply.{comes_first, insert, sort_suggestions}
use kukicha.Blend.Apply.Weave.{begins}

-- No suggestion starts behind one that stands before it.
abbrev pub Descends : List Suggestion → Type 0
Descends [] = Unit {0}
Descends (s ∷ ss) = ((t : Suggestion) → Memᴰ t ss → begins t ≤ begins s) × Descends ss

comes_first-true : (s t : Suggestion) → comes_first s t ≡ true → begins t ≤ begins s
unfolding comes_first
comes_first-true s t h = ground arith

comes_first-false : (s t : Suggestion) → comes_first s t ≡ false → begins s ≤ begins t
unfolding comes_first
comes_first-false s t h = ground arith

insert-mem : (s u : Suggestion) (ts : List Suggestion) → Memᴰ u (insert s ts) → Memᴰ u (s ∷ ts)
unfolding insert
insert-mem s u [] m = m
insert-mem s u (t ∷ ts) m = elim (Bool-cases (comes_first t s)) [
  | inl h ↦ swap (insert-mem s u ts) (rw h at m)
  | inr h ↦ rw h at m
]
  where
    past : Memᴰ u (s ∷ ts) → Memᴰ u (s ∷ t ∷ ts)
    past (Memᴰ.head e) = Memᴰ.head e
    past (Memᴰ.tail m) = Memᴰ.tail (Memᴰ.tail m)

    swap : (Memᴰ u (insert s ts) → Memᴰ u (s ∷ ts)) → Memᴰ u (t ∷ insert s ts) → Memᴰ u (s ∷ t ∷ ts)
    swap ih (Memᴰ.head e) = Memᴰ.tail (Memᴰ.head e)
    swap ih (Memᴰ.tail m) = past (ih m)

mem-insert : (s u : Suggestion) (ts : List Suggestion) → Memᴰ u (s ∷ ts) → Memᴰ u (insert s ts)
unfolding insert
mem-insert s u [] m = m
mem-insert s u (t ∷ ts) m = elim (Bool-cases (comes_first t s)) [
  | inl h ↦ rw h (swap (mem-insert s u ts) m)
  | inr h ↦ rw h m
]
  where
    swap : (Memᴰ u (s ∷ ts) → Memᴰ u (insert s ts)) → Memᴰ u (s ∷ t ∷ ts) → Memᴰ u (t ∷ insert s ts)
    swap ih (Memᴰ.head e) = Memᴰ.tail (ih (Memᴰ.head e))
    swap ih (Memᴰ.tail (Memᴰ.head e)) = Memᴰ.head e
    swap ih (Memᴰ.tail (Memᴰ.tail m)) = Memᴰ.tail (ih (Memᴰ.tail m))

insert-Descends : (s : Suggestion) (ts : List Suggestion) → Descends ts → Descends (insert s ts)
unfolding insert
insert-Descends s [] d = ((λ t m. elim m [ ]), tt)
insert-Descends s (t ∷ ts) d = elim (Bool-cases (comes_first t s)) [
  | inl h ↦ rw h ((λ u m. behind h u (insert-mem s u ts m)), insert-Descends s ts d.1)
  | inr h ↦ rw h ((λ u m. ahead h u m), d)
]
  where
    behind : comes_first t s ≡ true → (u : Suggestion) → Memᴰ u (s ∷ ts) → begins u ≤ begins t
    behind h u (Memᴰ.head e) = rw e (comes_first-true t s h)
    behind h u (Memᴰ.tail m) = d.0 u m

    ahead : comes_first t s ≡ false → (u : Suggestion) → Memᴰ u (t ∷ ts) → begins u ≤ begins s
    ahead h u (Memᴰ.head e) = rw e (comes_first-false t s h)
    ahead h u (Memᴰ.tail m) = omega (arith, d.0 u m, comes_first-false t s h)

pub sort_suggestions-Descends : (ss : List Suggestion) → Descends (sort_suggestions ss)
unfolding sort_suggestions
sort_suggestions-Descends [] = tt
sort_suggestions-Descends (s ∷ ss) =
    insert-Descends s (sort_suggestions ss) (sort_suggestions-Descends ss)

pub sort_suggestions-mem :
    (u : Suggestion) (ss : List Suggestion) → Memᴰ u (sort_suggestions ss) → Memᴰ u ss
unfolding sort_suggestions
sort_suggestions-mem u [] m = m
sort_suggestions-mem u (s ∷ ss) m =
    again (sort_suggestions-mem u ss) (insert-mem s u (sort_suggestions ss) m)
  where
    again :
        (Memᴰ u (sort_suggestions ss) → Memᴰ u ss)
        → Memᴰ u (s ∷ sort_suggestions ss)
        → Memᴰ u (s ∷ ss)
    again ih (Memᴰ.head e) = Memᴰ.head e
    again ih (Memᴰ.tail m) = Memᴰ.tail (ih m)

pub mem-sort_suggestions :
    (u : Suggestion) (ss : List Suggestion) → Memᴰ u ss → Memᴰ u (sort_suggestions ss)
unfolding sort_suggestions
mem-sort_suggestions u (s ∷ ss) m =
    mem-insert s u (sort_suggestions ss) (again (mem-sort_suggestions u ss) m)
  where
    again :
        (Memᴰ u ss → Memᴰ u (sort_suggestions ss))
        → Memᴰ u (s ∷ ss)
        → Memᴰ u (s ∷ sort_suggestions ss)
    again ih (Memᴰ.head e) = Memᴰ.head e
    again ih (Memᴰ.tail m) = Memᴰ.tail (ih m)
mem-sort_suggestions u [] m = elim m [ ]
