-- ===== src/Lexer/Strings/Dedent/Size.antt =====
-- The dedent drops runes and adds none, and the escaping of the content at most doubles it: for any
-- number given to each rune, the sum does not grow.
use kukicha.Prelude.{
  ℕ, ◌+◌, ◌*◌, ◌≤◌, Bool, true, false, ◌&&◌, List, [], ◌∷◌, Option, none, some, ◌≡◌, refl, ap, ◌∙◌,
  arith, ◌==◌, ltb, length, sum_by, sum_by-append, sum_by-reverse, Bool-cases, inl, inr,
  if◌then◌else◌, ◌-◌, ◌||◌,
}
use mathlib.Core.List.{map, reverse}
use kukicha.Lexer.Strings.Dedent.{
  strip_leading, strip_reversed, strip_trailing, onto_first, split_lines, join_lines, strip_line,
  strip_all, min_indent, dedent_triple_quote, inject,
}

join_lines-onto_first :
    (c : ℕ) (ls : List (List ℕ)) → join_lines (onto_first c ls) ≡ c ∷ join_lines ls
unfolding join_lines onto_first
join_lines-onto_first c [] = refl
join_lines-onto_first c (l ∷ []) = refl
join_lines-onto_first c (l ∷ m ∷ ls) = refl

abbrev HasLine : List (List ℕ) → Type 0
HasLine ls = (l : List ℕ) × (rest : List (List ℕ)) × (ls ≡ l ∷ rest)

onto_first-HasLine : (c : ℕ) (ls : List (List ℕ)) → HasLine (onto_first c ls)
unfolding onto_first
onto_first-HasLine c [] = (c ∷ [], [], refl)
onto_first-HasLine c (l ∷ ls) = (c ∷ l, ls, refl)

split_lines-HasLine : (cs : List ℕ) → HasLine (split_lines cs)
unfolding split_lines
split_lines-HasLine [] = ([], [], refl)
split_lines-HasLine (c ∷ cs) = elim (Bool-cases (c == 10)) [
  | inl h ↦ rw h ([], split_lines cs, refl)
  | inr h ↦ rw h (onto_first-HasLine c (split_lines cs))
]

join_lines-nil : (ls : List (List ℕ)) → HasLine ls → join_lines ([] ∷ ls) ≡ 10 ∷ join_lines ls
unfolding join_lines
join_lines-nil ls (l, rest, e) = rw e refl

-- The lines of a text, joined again, are the text.
pub join_lines-split_lines : (cs : List ℕ) → join_lines (split_lines cs) ≡ cs
unfolding split_lines
join_lines-split_lines [] = unfold join_lines in refl
join_lines-split_lines (c ∷ cs) = elim (Bool-cases (c == 10)) [
  | inl h ↦ rw h (
      join_lines-nil (split_lines cs) (split_lines-HasLine cs)
      ∙ ground (arith, join_lines-split_lines cs))
  | inr h ↦ rw h (join_lines-onto_first c (split_lines cs) ∙ ap (◌∷◌ c) (join_lines-split_lines cs))
]

module _ (f : ℕ → ℕ) where
  strip_leading-le : (cs : List ℕ) → sum_by f (strip_leading cs) ≤ sum_by f cs
  unfolding strip_leading
  strip_leading-le [] = omega arith
  strip_leading-le (c ∷ []) = ground arith
  strip_leading-le (c ∷ d ∷ cs) = ground arith

  strip_reversed-le : (cs : List ℕ) → sum_by f (strip_reversed cs) ≤ sum_by f cs
  unfolding strip_reversed
  strip_reversed-le [] = omega arith
  strip_reversed-le (c ∷ []) = ground arith
  strip_reversed-le (c ∷ d ∷ cs) = ground arith

  strip_trailing-le : (cs : List ℕ) → sum_by f (strip_trailing cs) ≤ sum_by f cs
  unfolding strip_trailing
  strip_trailing-le cs = omega (
    arith,
    sum_by-reverse f (strip_reversed (reverse cs)),
    sum_by-reverse f cs,
    strip_reversed-le (reverse cs),
  )

  strip_line-le : (s n : ℕ) (cs : List ℕ) → sum_by f (strip_line s n cs) ≤ sum_by f cs
  unfolding strip_line
  strip_line-le s n [] = omega arith
  strip_line-le s n (c ∷ cs) = elim (Bool-cases (ltb s n && (c == b' ' || c == 9))) [
    | inl cut ↦ rw cut (
        omega (
          arith,
          strip_line-le (s + (if c == b' ' then 1 else if ltb n (s + 4) then n - s else 4)) n cs,
        ))
    | inr kept ↦ rw kept (omega arith)
  ]

  join_lines-le :
      (n : ℕ) (ls : List (List ℕ))
      → sum_by f (join_lines (map (strip_line 0 n) ls)) ≤ sum_by f (join_lines ls)
  unfolding join_lines
  join_lines-le n [] = omega arith
  join_lines-le n (l ∷ []) = strip_line-le 0 n l
  join_lines-le n (l ∷ m ∷ ls) = omega (
    arith,
    sum_by-append f (strip_line 0 n l) (10 ∷ join_lines (map (strip_line 0 n) (m ∷ ls))),
    sum_by-append f l (10 ∷ join_lines (m ∷ ls)),
    strip_line-le 0 n l,
    join_lines-le n (m ∷ ls),
  )

  strip_all-le : (o : Option ℕ) (cs : List ℕ) → sum_by f (strip_all o cs) ≤ sum_by f cs
  unfolding strip_all
  strip_all-le none cs = omega arith
  strip_all-le (some n) cs =
      ground (arith, join_lines-le n (split_lines cs), join_lines-split_lines cs)

  -- Whatever each rune weighs, the dedented text weighs at most what the raw text weighs.
  pub dedent_triple_quote-le : (cs : List ℕ) → sum_by f (dedent_triple_quote cs) ≤ sum_by f cs
  unfolding dedent_triple_quote
  dedent_triple_quote-le cs =
      let text = strip_trailing (strip_leading cs) in
      omega (
        arith,
        strip_all-le (min_indent (split_lines text)) text,
        strip_trailing-le (strip_leading cs),
        strip_leading-le cs,
      )

  -- What the escaping adds weighs nothing where a backslash and an `n` weigh nothing.
  pub inject-le :
      f b'\\' ≡ 0 → f b'n' ≡ 0 → (b : Bool) (cs : List ℕ) → sum_by f (inject b cs) ≤ sum_by f cs
  unfolding inject
  inject-le p q b [] = omega arith
  inject-le p q true (c ∷ cs) = omega (arith, inject-le p q false cs)
  inject-le p q false (c ∷ cs) = ground (arith, inject-le p q (c == b'\\') cs)

pub length-inject : (b : Bool) (cs : List ℕ) → length (inject b cs) ≤ 2 * length cs
unfolding inject
length-inject b [] = omega arith
length-inject true (c ∷ cs) = omega (arith, length-inject false cs)
length-inject false (c ∷ cs) = ground (arith, length-inject (c == b'\\') cs)
