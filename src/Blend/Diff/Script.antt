-- ===== src/Blend/Diff/Script.antt =====
-- internal/blend/apply.go: the edit script of `diffLines` is right, and as short as any.
use kukicha.Prelude.{
  ℕ, suc, ◌+◌, ◌*◌, ◌≤◌, ◌≡◌, refl, ap, ◌∙◌, true, false, List, [], ◌∷◌, Bytes, same, leb, length,
  drop, Bool-cases, inl, inr, same_sound, same_refl, arith,
}
use kukicha.Blend.Diff.{EditKind, max, cell, dp_rows, deletes, inserts, trace, diff_lines}
use kukicha.Blend.Diff.Table.{lcs, lcs_nil, cell-eq-lcs}

-- The script turns the first lines into the second.
pub data Transforms : List EditKind → List Bytes → List Bytes → Type 0 where
  done : Transforms [] [] []
  keep :
      {es : List EditKind} {a b : List Bytes} {x y : Bytes}
      → x ≡ y
      → Transforms es a b
      → Transforms (EditKind.edit_keep ∷ es) (x ∷ a) (y ∷ b)
  delete :
      {es : List EditKind} {a b : List Bytes} {x : Bytes}
      → Transforms es a b
      → Transforms (EditKind.edit_delete ∷ es) (x ∷ a) b
  insert :
      {es : List EditKind} {a b : List Bytes} {y : Bytes}
      → Transforms es a b
      → Transforms (EditKind.edit_insert ∷ es) a (y ∷ b)

abbrev pub keeps : List EditKind → ℕ
keeps [] = 0
keeps (EditKind.edit_keep ∷ es) = suc (keeps es)
keeps (EditKind.edit_delete ∷ es) = keeps es
keeps (EditKind.edit_insert ∷ es) = keeps es

abbrev pub changes : List EditKind → ℕ
changes [] = 0
changes (EditKind.edit_keep ∷ es) = changes es
changes (EditKind.edit_delete ∷ es) = suc (changes es)
changes (EditKind.edit_insert ∷ es) = suc (changes es)

-- What is not kept is changed, on both sides.
changes-Transforms :
    {es : List EditKind} {a b : List Bytes}
    → Transforms es a b
    → changes es + 2 * keeps es ≡ length a + length b
changes-Transforms Transforms.done = omega arith
changes-Transforms (Transforms.keep e t) = omega (arith, changes-Transforms t)
changes-Transforms (Transforms.delete t) = omega (arith, changes-Transforms t)
changes-Transforms (Transforms.insert t) = omega (arith, changes-Transforms t)

-- A line more adds at most one to the longest common subsequence, and takes nothing from it.
lcs-le-cons :
    (a : List Bytes)
    → ((b : List Bytes) (y : Bytes) → lcs a (y ∷ b) ≤ suc (lcs a b))
    → (b : List Bytes) (x : Bytes) → lcs a b ≤ lcs (x ∷ a) b
unfolding lcs
lcs-le-cons a step [] x = omega (arith, lcs_nil a)
lcs-le-cons a step (d ∷ b) x = elim (Bool-cases (same x d)) [
  | inl h ↦ rw h (step b d)
  | inr h ↦ rw h (ground arith)
]

lcs-cons-le : (a b : List Bytes) (y : Bytes) → lcs a (y ∷ b) ≤ suc (lcs a b)
unfolding lcs
lcs-cons-le [] b y = omega arith
lcs-cons-le (c ∷ a) b y = elim (Bool-cases (same c y)) [
  | inl h ↦ rw h (omega (arith, lcs-le-cons a (lcs-cons-le a) b c))
  | inr h ↦ rw h (ground (arith, lcs-cons-le a b y, lcs-le-cons a (lcs-cons-le a) b c))
]

cons-lcs-le :
    (a : List Bytes)
    → ((b : List Bytes) (y : Bytes) → lcs a b ≤ lcs a (y ∷ b))
    → (b : List Bytes) (x : Bytes) → lcs (x ∷ a) b ≤ suc (lcs a b)
unfolding lcs
cons-lcs-le a right [] x = omega arith
cons-lcs-le a right (d ∷ b) x = elim (Bool-cases (same x d)) [
  | inl h ↦ rw h (omega (arith, right b d))
  | inr h ↦ rw h (ground (arith, right b d, cons-lcs-le a right b x))
]

lcs-le-cons_right : (a b : List Bytes) (y : Bytes) → lcs a b ≤ lcs a (y ∷ b)
unfolding lcs
lcs-le-cons_right [] b y = omega arith
lcs-le-cons_right (x ∷ a) b y = elim (Bool-cases (same x y)) [
  | inl h ↦ rw h (cons-lcs-le a (lcs-le-cons_right a) b x)
  | inr h ↦ rw h (ground arith)
]

-- No script keeps more lines than a longest common subsequence has.
keeps-le-lcs : {es : List EditKind} {a b : List Bytes} → Transforms es a b → keeps es ≤ lcs a b
unfolding lcs
keeps-le-lcs Transforms.done = omega arith
keeps-le-lcs (Transforms.keep {y} e t) =
    let alike = same_refl y in rw e (rw alike (omega (arith, keeps-le-lcs t)))
keeps-le-lcs (Transforms.delete {a} {b} {x} t) =
    omega (arith, keeps-le-lcs t, lcs-le-cons a (lcs-cons-le a) b x)
keeps-le-lcs (Transforms.insert {a} {b} {y} t) =
    omega (arith, keeps-le-lcs t, lcs-le-cons_right a b y)

deletes-Transforms : (a : List Bytes) → Transforms (deletes a) a []
unfolding deletes
deletes-Transforms [] = Transforms.done
deletes-Transforms (x ∷ a) = Transforms.delete (deletes-Transforms a)

inserts-Transforms : (b : List Bytes) → Transforms (inserts b) [] b
unfolding inserts
inserts-Transforms [] = Transforms.done
inserts-Transforms (y ∷ b) = Transforms.insert (inserts-Transforms b)

-- The script that a trace finds is right, whatever table it reads.
trace-Transforms :
    (dp : List (List ℕ)) (i j : ℕ) (a b : List Bytes) → Transforms (trace dp i j a b) a b
unfolding trace
trace-Transforms dp i j [] b = inserts-Transforms b
trace-Transforms dp i j (x ∷ a) [] = deletes-Transforms (x ∷ a)
trace-Transforms dp i j (x ∷ a) (y ∷ b) = elim (Bool-cases (same x y)) [
  | inl h ↦ rw h (Transforms.keep (same_sound x y h) (trace-Transforms dp (i + 1) (j + 1) a b))
  | inr h ↦ rw h (elim (Bool-cases (leb (cell dp i (j + 1)) (cell dp (i + 1) j))) [
    | inl l ↦ rw l (Transforms.delete (trace-Transforms dp (i + 1) j a (y ∷ b)))
    | inr l ↦ rw l (Transforms.insert (trace-Transforms dp i (j + 1) (x ∷ a) b))
  ])
]

deletes-keeps : (a : List Bytes) → keeps (deletes a) ≡ 0
unfolding deletes
deletes-keeps [] = refl
deletes-keeps (x ∷ a) = deletes-keeps a

inserts-keeps : (b : List Bytes) → keeps (inserts b) ≡ 0
unfolding inserts
inserts-keeps [] = refl
inserts-keeps (y ∷ b) = inserts-keeps b

-- The table at and behind the lines that are left.
abbrev Reads : List (List ℕ) → ℕ → ℕ → List Bytes → List Bytes → Type 0
Reads dp i j a b =
    (k l : ℕ) → k ≤ length a → l ≤ length b → cell dp (i + k) (j + l) ≡ lcs (drop k a) (drop l b)

Reads-left :
    (dp : List (List ℕ)) (i j : ℕ) (x : Bytes) (a b : List Bytes)
    → Reads dp i j (x ∷ a) b
    → Reads dp (i + 1) j a b
Reads-left dp i j x a b r k l h m = (λ t. cell dp (next t) (j + l)) ∙ r (suc k) l (omega arith) m
  where
    next : i + 1 + k ≡ i + suc k
    next = omega arith

Reads-right :
    (dp : List (List ℕ)) (i j : ℕ) (y : Bytes) (a b : List Bytes)
    → Reads dp i j a (y ∷ b)
    → Reads dp i (j + 1) a b
Reads-right dp i j y a b r k l h m = (λ t. cell dp (i + k) (next t)) ∙ r k (suc l) h (omega arith)
  where
    next : j + 1 + l ≡ j + suc l
    next = omega arith

Reads-head :
    (dp : List (List ℕ)) (i j : ℕ) (a b : List Bytes) → Reads dp i j a b → cell dp i j ≡ lcs a b
Reads-head dp i j a b r =
    (λ t. cell dp (same_row t) (same_column t)) ∙ r 0 0 (omega arith) (omega arith)
  where
    same_row : i ≡ i + 0
    same_row = omega arith

    same_column : j ≡ j + 0
    same_column = omega arith

max-left : (old new : ℕ) → leb new old ≡ true → old ≡ max old new
max-left old new h = ground arith

max-right : (old new : ℕ) → leb new old ≡ false → new ≡ max old new
max-right old new h = ground arith

keeps-trace :
    (dp : List (List ℕ)) (i j : ℕ) (a b : List Bytes)
    → Reads dp i j a b
    → keeps (trace dp i j a b) ≡ lcs a b
unfolding trace lcs
keeps-trace dp i j [] b r = inserts-keeps b
keeps-trace dp i j (x ∷ a) [] r = deletes-keeps (x ∷ a)
keeps-trace dp i j (x ∷ a) (y ∷ b) r =
    let old = Reads-left dp i j x a (y ∷ b) r in
    let new = Reads-right dp i j y (x ∷ a) b r in
    let at_old = Reads-head dp (i + 1) j a (y ∷ b) old in
    let at_new = Reads-head dp i (j + 1) (x ∷ a) b new in
    elim (Bool-cases (same x y)) [
      | inl h ↦
          rw h (ap suc (keeps-trace dp (i + 1) (j + 1) a b (Reads-right dp (i + 1) j y a b old)))
      | inr h ↦ rw h (elim (Bool-cases (leb (cell dp i (j + 1)) (cell dp (i + 1) j))) [
        | inl l ↦ rw l (
            keeps-trace dp (i + 1) j a (y ∷ b) old
            ∙ max-left (lcs a (y ∷ b)) (lcs (x ∷ a) b) (rw at_new at rw at_old at l))
        | inr l ↦ rw l (
            keeps-trace dp i (j + 1) (x ∷ a) b new
            ∙ max-right (lcs a (y ∷ b)) (lcs (x ∷ a) b) (rw at_new at rw at_old at l))
      ])
    ]

table-Reads : (a b : List Bytes) → Reads (dp_rows a b) 0 0 a b
table-Reads a b k l h m = (λ t. cell (dp_rows a b) (row t) (column t)) ∙ cell-eq-lcs a b k l h m
  where
    row : 0 + k ≡ k
    row = omega arith

    column : 0 + l ≡ l
    column = omega arith

-- For all lines a and b the edit script of diffLines turns a into b, and it deletes and inserts no
-- more lines than any other script that does.
pub diff_lines-Transforms :
    (a b : List Bytes)
    → Transforms (diff_lines a b) a b
      × ((es : List EditKind) → Transforms es a b → changes (diff_lines a b) ≤ changes es)
unfolding diff_lines
diff_lines-Transforms a b = (
  trace-Transforms (dp_rows a b) 0 0 a b,
  λ es t. omega (
    arith,
    changes-Transforms t,
    keeps-le-lcs t,
    changes-Transforms (trace-Transforms (dp_rows a b) 0 0 a b),
    keeps-trace (dp_rows a b) 0 0 a b (table-Reads a b),
  ),
)
