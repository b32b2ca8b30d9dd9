-- ===== src/Blend/Diff/Table.antt =====
-- internal/blend/apply.go: the table of `diffLines` holds the lengths of the longest common
-- subsequences of the lines that are left.
use kukicha.Prelude.{
  ℕ, zero, suc, ◌+◌, ◌≤◌, ◌≡◌, refl, sym, ap, ◌∙◌, List, [], ◌∷◌, Bytes, same, if◌then◌else◌,
  length, drop, Bool-cases, inl, inr, arith,
}
use kukicha.Blend.Diff.{max, get_or, zeros, dp_row, dp_rows, cell}

-- The length of a longest common subsequence.
unfoldable pub lcs : List Bytes → List Bytes → ℕ
lcs [] b = 0
lcs (x ∷ a) [] = 0
lcs (x ∷ a) (y ∷ b) =
    let both = lcs a b in
    let old = lcs a (y ∷ b) in let new = lcs (x ∷ a) b in if same x y then suc both else max old new

pub lcs_nil : (a : List Bytes) → lcs a [] ≡ 0
unfolding lcs
lcs_nil [] = refl
lcs_nil (x ∷ a) = refl

pub get_or-zeros : (b : List Bytes) (j : ℕ) → get_or (zeros b) j 0 ≡ 0
get_or-zeros [] zero = refl
get_or-zeros [] (suc j) = refl
get_or-zeros (y ∷ b) zero = refl
get_or-zeros (y ∷ b) (suc j) = get_or-zeros b j

-- A row holds the lengths for the lines `a` and what is left of `b`.
abbrev IsRow : List Bytes → List Bytes → List ℕ → Type 0
IsRow a [] row = (row ≡ 0 ∷ [])
IsRow a (y ∷ b) [] = ⊥
IsRow a (y ∷ b) (d ∷ row) = (d ≡ lcs a (y ∷ b)) × IsRow a b row

zeros-IsRow : (b : List Bytes) → IsRow [] b (zeros b)
unfolding lcs
zeros-IsRow [] = refl
zeros-IsRow (y ∷ b) = (refl, zeros-IsRow b)

IsRow-head : (a b : List Bytes) (row : List ℕ) → IsRow a b row → get_or row 0 0 ≡ lcs a b
IsRow-head a [] row r = ap (λ t. get_or t 0 0) r ∙ sym (lcs_nil a)
IsRow-head a (y ∷ b) [] r = absurd r
IsRow-head a (y ∷ b) (d ∷ row) r = r.0

dp_row-IsRow :
    (x : Bytes) (a b : List Bytes) (below : List ℕ)
    → IsRow a b below
    → IsRow (x ∷ a) b (dp_row x b below)
unfolding dp_row lcs
dp_row-IsRow x a [] below r = refl
dp_row-IsRow x a (y ∷ b) [] r = absurd r
dp_row-IsRow x a (y ∷ b) (d ∷ below) r =
    let rest : IsRow (x ∷ a) b (dp_row x b below) = dp_row-IsRow x a b below r.1 in
    (first rest, rest)
  where
    first :
        IsRow (x ∷ a) b (dp_row x b below)
        → (if same x y then get_or below 0 0 + 1 else max d (get_or (dp_row x b below) 0 0))
          ≡ lcs (x ∷ a) (y ∷ b)
    first rest = elim (Bool-cases (same x y)) [
      | inl h ↦ rw h (omega (arith, IsRow-head a b below r.1))
      | inr h ↦ rw h (λ i. max (r.0 i) (IsRow-head (x ∷ a) b (dp_row x b below) rest i))
    ]

abbrev IsTable : List Bytes → List Bytes → List (List ℕ) → Type 0
IsTable a b [] = ⊥
IsTable [] b (row ∷ rows) = IsRow [] b row
IsTable (x ∷ a) b (row ∷ rows) = IsRow (x ∷ a) b row × IsTable a b rows

IsTable-head : (a b : List Bytes) (dp : List (List ℕ)) → IsTable a b dp → IsRow a b (get_or dp 0 [])
IsTable-head a b [] t = absurd t
IsTable-head [] b (row ∷ rows) t = t
IsTable-head (x ∷ a) b (row ∷ rows) t = t.0

dp_rows-IsTable : (a b : List Bytes) → IsTable a b (dp_rows a b)
unfolding dp_rows
dp_rows-IsTable [] b = zeros-IsRow b
dp_rows-IsTable (x ∷ a) b = (
  dp_row-IsRow x a b (get_or (dp_rows a b) 0 [])
      (IsTable-head a b (dp_rows a b) (dp_rows-IsTable a b)),
  dp_rows-IsTable a b,
)

IsRow-get_or :
    (a b : List Bytes) (row : List ℕ) (j : ℕ)
    → IsRow a b row
    → j ≤ length b
    → get_or row j 0 ≡ lcs a (drop j b)
IsRow-get_or a b row zero r h = IsRow-head a b row r
IsRow-get_or a [] row (suc j) r h = absurd (omega arith)
IsRow-get_or a (y ∷ b) [] (suc j) r h = absurd r
IsRow-get_or a (y ∷ b) (d ∷ row) (suc j) r h = IsRow-get_or a b row j r.1 (omega arith)

IsTable-get_or :
    (a b : List Bytes) (dp : List (List ℕ)) (i : ℕ)
    → IsTable a b dp
    → i ≤ length a
    → IsRow (drop i a) b (get_or dp i [])
IsTable-get_or a b dp zero t h = IsTable-head a b dp t
IsTable-get_or [] b dp (suc i) t h = absurd (omega arith)
IsTable-get_or (x ∷ a) b [] (suc i) t h = absurd t
IsTable-get_or (x ∷ a) b (row ∷ rows) (suc i) t h = IsTable-get_or a b rows i t.1 (omega arith)

pub cell-eq-lcs :
    (a b : List Bytes) (i j : ℕ)
    → i ≤ length a
    → j ≤ length b
    → cell (dp_rows a b) i j ≡ lcs (drop i a) (drop j b)
cell-eq-lcs a b i j h k =
    IsRow-get_or (drop i a) b (get_or (dp_rows a b) i []) j
      (IsTable-get_or a b (dp_rows a b) i (dp_rows-IsTable a b) h) k
