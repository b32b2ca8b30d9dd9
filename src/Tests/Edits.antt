-- ===== src/Tests/Edits.antt =====
-- internal/blend: runs of the application of suggestions and of the diff.
use kukicha.Prelude.{ℕ, ◌≤◌, ◌≡◌, refl, true, false, List, [], ◌∷◌, Bytes, codes, same, pos}
use kukicha.Blend.Suggestion.{Place, Suggestion, split_csv, parse_patterns}
use kukicha.Blend.Apply.{apply}
use kukicha.Blend.Apply.Laws.{IsApplied, apply-IsApplied}
use kukicha.Blend.Diff.{EditKind, diff_lines}
use kukicha.Blend.Diff.Script.{Transforms, changes, diff_lines-Transforms}

abbrev here : Place
here = record { line = pos 1; col = pos 1 }

abbrev edit : ℕ → ℕ → Bytes → Suggestion
edit a b text = record {
  pattern = codes "operators";
  message = [];
  file = [];
  from = here;
  to = here;
  start = pos a;
  end = pos b;
  original = [];
  replacement = text;
}

abbrev source_text : Bytes
source_text = codes "if a && !b {"

abbrev both_edits : List Suggestion
both_edits = edit 5 7 (codes "and") ∷ edit 8 9 (codes "not ") ∷ []

apply_both : apply source_text both_edits ≡ codes "if a and not b {"
unfolding apply
apply_both = refl

-- Of two nested suggestions the inner one is applied.
apply_nested :
    apply source_text (edit 3 9 (codes "x") ∷ edit 5 7 (codes "and") ∷ []) ≡ codes "if a and !b {"
unfolding apply
apply_nested = refl

apply-IsApplied_example :
    (es : List Suggestion) × IsApplied source_text both_edits es (apply source_text both_edits)
apply-IsApplied_example = apply-IsApplied source_text both_edits

abbrev old_lines : List Bytes
old_lines = codes "a" ∷ codes "b" ∷ codes "c" ∷ []

abbrev new_lines : List Bytes
new_lines = codes "b" ∷ codes "d" ∷ codes "c" ∷ []

diff_small :
    diff_lines old_lines new_lines
    ≡ EditKind.edit_delete ∷ EditKind.edit_keep ∷ EditKind.edit_insert ∷ EditKind.edit_keep ∷ []
unfolding diff_lines same
diff_small = refl

diff_lines-Transforms_example :
    Transforms (diff_lines old_lines new_lines) old_lines new_lines
    × ((es : List EditKind)
        → Transforms es old_lines new_lines
        → changes (diff_lines old_lines new_lines) ≤ changes es)
diff_lines-Transforms_example = diff_lines-Transforms old_lines new_lines

split_some : split_csv (codes " a,,b ") ≡ codes "a" ∷ codes "b" ∷ []
unfolding split_csv
split_some = refl

parse_some : parse_patterns (codes "operators, onerr") ≡ record {
  operators = true;
  comparisons = false;
  types = false;
  onerr = true;
  package_clause = false;
}
unfolding parse_patterns split_csv
parse_some = refl
