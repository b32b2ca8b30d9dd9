-- ===== src/Blend/Diff.antt =====
-- internal/blend/apply.go: `diffLines`. Children: a reference for the table, and the edit scripts.
pub mod Table
pub mod Script
use kukicha.Prelude.{
  ℕ, zero, suc, ◌+◌, Bool, true, false, List, [], ◌∷◌, Bytes, same, leb, if◌then◌else◌, length,
}

pub data EditKind : Type 0 where
  edit_keep : EditKind
  edit_delete : EditKind
  edit_insert : EditKind

abbrev pub max : ℕ → ℕ → ℕ
max a b = if leb a b then b else a

-- Element `i` of a row or of the table, which the code reads only in range.
abbrev pub get_or {ℓ} : {A : Type ℓ} → List A → ℕ → A → A
get_or [] i d = d
get_or (x ∷ xs) zero d = x
get_or (x ∷ xs) (suc i) d = get_or xs i d

abbrev pub zeros : List Bytes → List ℕ
zeros [] = 0 ∷ []
zeros (y ∷ ys) = 0 ∷ zeros ys

-- A row of the table, for the line `x` and the row below it. The inner loop runs from the right.
unfoldable pub dp_row : Bytes → List Bytes → List ℕ → List ℕ
dp_row x [] below = 0 ∷ []
dp_row x (y ∷ ys) [] = zeros (y ∷ ys)
dp_row x (y ∷ ys) (d ∷ below) =
    let right = dp_row x ys below in
    (if same x y then get_or below 0 0 + 1 else max d (get_or right 0 0)) ∷ right

-- The rows of the table from a line on. The outer loop runs from the last line.
unfoldable pub dp_rows : List Bytes → List Bytes → List (List ℕ)
unfolding dp_row
dp_rows [] b = zeros b ∷ []
dp_rows (x ∷ a) b = let below = dp_rows a b in dp_row x b (get_or below 0 []) ∷ below

abbrev pub cell : List (List ℕ) → ℕ → ℕ → ℕ
cell dp i j = get_or (get_or dp i []) j 0

unfoldable pub deletes : List Bytes → List EditKind
deletes [] = []
deletes (x ∷ a) = EditKind.edit_delete ∷ deletes a

unfoldable pub inserts : List Bytes → List EditKind
inserts [] = []
inserts (y ∷ b) = EditKind.edit_insert ∷ inserts b

-- The loops that trace the table back, with the lines from `i` and from `j` on.
unfoldable pub trace : List (List ℕ) → ℕ → ℕ → List Bytes → List Bytes → List EditKind
unfolding deletes inserts
trace dp i j [] b = inserts b
trace dp i j (x ∷ a) [] = deletes (x ∷ a)
trace dp i j (x ∷ a) (y ∷ b) =
    let both = trace dp (i + 1) (j + 1) a b in
    let old = trace dp (i + 1) j a (y ∷ b) in
    let new = trace dp i (j + 1) (x ∷ a) b in
    if same x y
    then EditKind.edit_keep ∷ both
    else if leb (cell dp i (j + 1)) (cell dp (i + 1) j)
    then EditKind.edit_delete ∷ old
    else EditKind.edit_insert ∷ new

-- `diffLines`
unfoldable pub diff_lines : List Bytes → List Bytes → List EditKind
unfolding trace dp_rows
diff_lines a b = trace (dp_rows a b) 0 0 a b
