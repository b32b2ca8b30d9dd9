-- ===== src/Blend/Suggestion.antt =====
-- internal/blend/suggestion.go: suggestions, and the selection of their patterns.
use kukicha.Prelude.{
  ℕ, Bool, true, false, ◌||◌, List, [], ◌∷◌, ◌++◌, Bytes, codes, same, ℤ, ◌==◌, if◌then◌else◌,
  is_empty,
}
use mathlib.Core.List.{reverse}

-- A place in the file, for people.
pub record Place : Type 0 where
  pub line : ℤ
  pub col : ℤ

pub record Suggestion : Type 0 where
  pub pattern : Bytes
  pub message : Bytes
  pub file : Bytes
  pub from : Place
  pub to : Place
  pub start : ℤ
  pub end : ℤ
  pub original : Bytes
  pub replacement : Bytes

pub record PatternSet : Type 0 where
  pub operators : Bool
  pub comparisons : Bool
  pub types : Bool
  pub onerr : Bool
  pub package_clause : Bool

abbrev pub all_patterns : PatternSet
all_patterns = record {
  operators = true;
  comparisons = true;
  types = true;
  onerr = true;
  package_clause = true;
}

abbrev no_patterns : PatternSet
no_patterns = record {
  operators = false;
  comparisons = false;
  types = false;
  onerr = false;
  package_clause = false;
}

abbrev blank : ℕ → Bool
blank c = c == b' ' || c == 9

trim_left : Bytes → Bytes
trim_left [] = []
trim_left (c ∷ cs) = let rest = trim_left cs in if blank c then rest else c ∷ cs

-- `trim`
unfoldable pub trim : Bytes → Bytes
unfolding trim_left
trim s = reverse (trim_left (reverse (trim_left s)))

add_part : Bytes → List Bytes → List Bytes
add_part p parts = if is_empty (trim p) then parts else trim p ∷ parts

-- The loop of `splitCSV`, with the part since the last comma.
split_run : Bytes → Bytes → List Bytes
unfolding add_part trim
split_run part [] = add_part part []
split_run part (c ∷ cs) =
    let next = split_run [] cs in
    let more = split_run (part ++ c ∷ []) cs in if c == b',' then add_part part next else more

-- `splitCSV`
unfoldable pub split_csv : Bytes → List Bytes
unfolding split_run
split_csv s = split_run [] s

-- A round of the loop of `ParsePatterns`.
enable : Bytes → PatternSet → PatternSet
unfolding same
enable p ps =
    if same p (codes "operators")
    then record ps { operators = true }
    else if same p (codes "comparisons")
    then record ps { comparisons = true }
    else if same p (codes "types")
    then record ps { types = true }
    else if same p (codes "onerr")
    then record ps { onerr = true }
    else if same p (codes "package")
    then record ps { package_clause = true }
    else ps

enable_all : List Bytes → PatternSet → PatternSet
unfolding enable
enable_all [] ps = ps
enable_all (p ∷ rest) ps = enable_all rest (enable p ps)

-- `ParsePatterns`
unfoldable pub parse_patterns : Bytes → PatternSet
unfolding enable_all
parse_patterns s = if is_empty s then all_patterns else enable_all (split_csv s) no_patterns
