-- ===== src/Blend/Apply.antt =====
-- internal/blend/apply.go: `Apply`.
pub mod Weave
pub mod Order
pub mod Laws
use kukicha.Prelude.{
  ℕ, zero, suc, ◌+◌, ◌-◌, ◌≤◌, ◌<◌, Bool, true, false, not, ◌&&◌, ◌||◌, List, [], ◌∷◌, ◌++◌, Bytes,
  ℤ, pos, negsuc, pos_part, neg_part, ltb_ℤ, ltb, leb, ◌==◌, if◌then◌else◌, length, take, drop,
  is_empty,
}
use kukicha.Blend.Suggestion.{Suggestion}

abbrev same_int : ℤ → ℤ → Bool
same_int a b = not (ltb_ℤ a b) && not (ltb_ℤ b a)

-- The order given to `sort.Slice`: descending by start, and for ties descending by end.
unfoldable pub comes_first : Suggestion → Suggestion → Bool
comes_first s t = if same_int s.start t.start then ltb_ℤ t.end s.end else ltb_ℤ t.start s.start

-- A sort by that order. The program's sort need not keep the order of equal elements.
unfoldable pub insert : Suggestion → List Suggestion → List Suggestion
unfolding comes_first
insert s [] = s ∷ []
insert s (t ∷ ts) = let rest = insert s ts in if comes_first t s then t ∷ rest else s ∷ t ∷ ts

unfoldable pub sort_suggestions : List Suggestion → List Suggestion
unfolding insert
sort_suggestions [] = []
sort_suggestions (s ∷ ss) = insert s (sort_suggestions ss)

-- `result`, and `lastStart`, the lowest start touched.
pub record Progress : Type 0 where
  pub result : Bytes
  pub last_start : ℕ

-- `s.Start < 0 || s.End > len(result) || s.Start >= s.End`, or an overlap.
unfoldable pub is_skipped : Suggestion → Progress → Bool
is_skipped s p =
    ltb_ℤ s.start (pos 0)
    || ltb_ℤ (pos (length p.result)) s.end
    || not (ltb_ℤ s.start s.end)
    || ltb_ℤ (pos p.last_start) s.end

unfoldable pub replace : Suggestion → Progress → Progress
replace s p = record {
  result = take (pos_part s.start) p.result ++ (s.replacement ++ drop (pos_part s.end) p.result);
  last_start = pos_part s.start;
}

-- A round of the loop.
unfoldable pub apply_one : Suggestion → Progress → Progress
unfolding is_skipped replace
apply_one s p = if is_skipped s p then p else replace s p

unfoldable pub apply_all : List Suggestion → Progress → Progress
unfolding apply_one
apply_all [] p = p
apply_all (s ∷ ss) p = apply_all ss (apply_one s p)

-- `Apply`
unfoldable pub apply : Bytes → List Suggestion → Bytes
unfolding apply_all sort_suggestions
apply src ss =
    if is_empty ss
    then src
    else (apply_all (sort_suggestions ss) (record { result = src; last_start = length src })).result
