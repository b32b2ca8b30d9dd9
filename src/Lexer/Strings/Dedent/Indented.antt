-- ===== src/Lexer/Strings/Dedent/Indented.antt =====
-- `dedentTripleQuote` gives back the lines of a literal that was indented as a whole.
use mathlib.Core.List.{map, reverse, reverse-append, reverse-reverse}
use kukicha.Prelude.{
  ℕ, zero, suc, ◌+◌, false, ◌||◌, List, [], ◌∷◌, ◌++◌, Option, none, some, ◌≡◌, refl, ap, ◌∙◌,
  arith, ◌==◌, if◌then◌else◌, sum_by, sum_by-append, sum_by-reverse, Bool-cases, inl, inr,
}
use kukicha.Lexer.Strings.Dedent.{
  strip_leading, strip_reversed, strip_trailing, onto_first, split_lines, join_lines, is_blank_line,
  line_indent, smaller, min_indent, strip_line, strip_all, dedent_triple_quote,
}

-- A line with blanks in front.
unfoldable pub blanks : ℕ → List ℕ → List ℕ
blanks zero l = l
blanks (suc n) l = b' ' ∷ blanks n l

unfoldable pub is_break : ℕ → ℕ
is_break c = if c == 10 || c == 13 then 1 else 0

-- Lines that hold no line break and no CR.
abbrev pub AreLines : List (List ℕ) → Type 0
AreLines [] = Unit
AreLines (l ∷ ls) = (sum_by is_break l ≡ 0) × AreLines ls

is_cr : ℕ → ℕ
is_cr c = if c == 13 then 1 else 0

is_cr-le : (l : List ℕ) → sum_by is_break l ≡ 0 → sum_by is_cr l ≡ 0
unfolding is_break is_cr
is_cr-le [] h = refl
is_cr-le (c ∷ cs) h = ground (arith, is_cr-le cs)

join_lines-cr : (ls : List (List ℕ)) → AreLines ls → sum_by is_cr (join_lines ls) ≡ 0
unfolding join_lines is_cr
join_lines-cr [] h = refl
join_lines-cr (l ∷ []) (h, k) = is_cr-le l h
join_lines-cr (l ∷ m ∷ ls) (h, k) =
    sum_by-append is_cr l (10 ∷ join_lines (m ∷ ls))
    ∙ omega (arith, is_cr-le l h, join_lines-cr (m ∷ ls) k)

strip_leading-break : (cs : List ℕ) → strip_leading (10 ∷ cs) ≡ cs
unfolding strip_leading
strip_leading-break [] = refl
strip_leading-break (c ∷ cs) = refl

strip_reversed-break : (cs : List ℕ) → sum_by is_cr cs ≡ 0 → strip_reversed (10 ∷ cs) ≡ cs
unfolding strip_reversed is_cr
strip_reversed-break [] h = refl
strip_reversed-break (c ∷ cs) h = ground arith

split_lines-line : (l : List ℕ) → sum_by is_break l ≡ 0 → split_lines l ≡ l ∷ []
unfolding split_lines is_break onto_first
split_lines-line [] h = refl
split_lines-line (c ∷ cs) h = elim (Bool-cases (c == 10)) [
  | inl a ↦ absurd (ground (arith, a, h))
  | inr a ↦ rw a (ap (onto_first c) (split_lines-line cs (omega arith)))
]

split_lines-append :
    (l rest : List ℕ) → sum_by is_break l ≡ 0 → split_lines (l ++ 10 ∷ rest) ≡ l ∷ split_lines rest
unfolding split_lines is_break onto_first
split_lines-append [] rest h = refl
split_lines-append (c ∷ cs) rest h = elim (Bool-cases (c == 10)) [
  | inl a ↦ absurd (ground (arith, a, h))
  | inr a ↦ rw a (ap (onto_first c) (split_lines-append cs rest (omega arith)))
]

split_lines-join_lines :
    (l : List ℕ) (ls : List (List ℕ))
    → AreLines (l ∷ ls)
    → split_lines (join_lines (l ∷ ls)) ≡ l ∷ ls
unfolding join_lines
split_lines-join_lines l [] (h, k) = split_lines-line l h
split_lines-join_lines l (m ∷ ls) (h, k) =
    split_lines-append l (join_lines (m ∷ ls)) h ∙ ap (◌∷◌ l) (split_lines-join_lines m ls k)

blanks-line : (n : ℕ) (l : List ℕ) → sum_by is_break l ≡ 0 → sum_by is_break (blanks n l) ≡ 0
unfolding blanks is_break
blanks-line zero l h = h
blanks-line (suc n) l h = omega (arith, blanks-line n l h)

AreLines-blanks : (n : ℕ) (ls : List (List ℕ)) → AreLines ls → AreLines (map (blanks n) ls)
AreLines-blanks n [] h = tt
AreLines-blanks n (l ∷ ls) (h, k) = (blanks-line n l h, AreLines-blanks n ls k)

is_blank_line-blanks : (n : ℕ) (l : List ℕ) → is_blank_line (blanks n l) ≡ is_blank_line l
unfolding is_blank_line blanks
is_blank_line-blanks zero l = refl
is_blank_line-blanks (suc n) l = is_blank_line-blanks n l

line_indent-blanks : (n : ℕ) (l : List ℕ) → line_indent (blanks n l) ≡ n + line_indent l
unfolding line_indent blanks
line_indent-blanks zero l = omega arith
line_indent-blanks (suc n) l = omega (arith, line_indent-blanks n l)

abbrev shift : ℕ → Option ℕ → Option ℕ
shift n none = none
shift n (some m) = some (n + m)

smaller-shift : (n a : ℕ) (o : Option ℕ) → smaller (n + a) (shift n o) ≡ shift n (smaller a o)
smaller-shift n a none = refl
smaller-shift n a (some m) = ground arith

min_indent-blanks :
    (n : ℕ) (ls : List (List ℕ)) → min_indent (map (blanks n) ls) ≡ shift n (min_indent ls)
unfolding min_indent
min_indent-blanks n [] = refl
min_indent-blanks n (l ∷ ls) = rw (is_blank_line-blanks n l) (
    rw (line_indent-blanks n l) (
      rw (min_indent-blanks n ls) (elim (Bool-cases (is_blank_line l)) [
        | inl h ↦ rw h refl
        | inr h ↦ rw h (smaller-shift n (line_indent l) (min_indent ls))
      ])))

strip_line-blanks : (k m : ℕ) (l : List ℕ) → strip_line k (k + m) (blanks m l) ≡ l
unfolding strip_line blanks
strip_line-blanks k zero [] = refl
strip_line-blanks k zero (c ∷ cs) = ground arith
strip_line-blanks k (suc m) l = ground (arith, strip_line-blanks (k + 1) m l)

strip_line_lem : (n : ℕ) (l : List ℕ) → strip_line 0 n (blanks n l) ≡ l
strip_line_lem n l = ap (λ m. strip_line 0 m (blanks n l)) (omega arith) ∙ strip_line-blanks 0 n l

strip_lines-blanks : (n : ℕ) (ls : List (List ℕ)) → map (strip_line 0 n) (map (blanks n) ls) ≡ ls
strip_lines-blanks n [] = refl
strip_lines-blanks n (l ∷ ls) = rw (strip_lines-blanks n ls) (ap (λ x. x ∷ ls) (strip_line_lem n l))

blanks-none : (ls : List (List ℕ)) → map (blanks 0) ls ≡ ls
unfolding blanks
blanks-none [] = refl
blanks-none (l ∷ ls) = ap (◌∷◌ l) (blanks-none ls)

strip_trailing-break : (cs : List ℕ) → sum_by is_cr cs ≡ 0 → strip_trailing (cs ++ 10 ∷ []) ≡ cs
unfolding strip_trailing
strip_trailing-break cs h =
    ap (λ x. reverse (strip_reversed x)) (reverse-append cs (10 ∷ []))
    ∙ ap reverse (strip_reversed-break (reverse cs) (sum_by-reverse is_cr cs ∙ h))
    ∙ reverse-reverse cs

strip_all-blanks :
    (n : ℕ) (l : List ℕ) (ls : List (List ℕ))
    → AreLines (l ∷ ls)
    → strip_all (some n) (join_lines (map (blanks n) (l ∷ ls))) ≡ join_lines (l ∷ ls)
unfolding strip_all
strip_all-blanks zero l ls h = ap join_lines (blanks-none (l ∷ ls))
strip_all-blanks (suc n) l ls h =
    let text = join_lines (map (blanks (suc n)) (l ∷ ls)) in
    let some_blanks : (suc n == 0) ≡ false = ground arith in
    ap (λ b. if b then text else join_lines (map (strip_line 0 (suc n)) (split_lines text)))
      some_blanks
    ∙ ap (λ x. join_lines (map (strip_line 0 (suc n)) x))
        (split_lines-join_lines (blanks (suc n) l) (map (blanks (suc n)) ls)
          (AreLines-blanks (suc n) (l ∷ ls) h))
    ∙ ap join_lines (strip_lines-blanks (suc n) (l ∷ ls))

-- Lines without line breaks, of which one that is not blank starts in the first column, are
-- indented by `n` blanks each and put between the quotes with a line break before and behind them.
-- The content of the literal is then these lines as they were.
pub dedent_triple_quote-blanks :
    (n : ℕ) (ls : List (List ℕ))
    → AreLines ls
    → min_indent ls ≡ some 0
    → dedent_triple_quote (10 ∷ join_lines (map (blanks n) ls) ++ 10 ∷ []) ≡ join_lines ls
unfolding dedent_triple_quote
dedent_triple_quote-blanks n [] h e = absurd (unfold min_indent in cc)
dedent_triple_quote-blanks n (l ∷ ls) h e =
    let text = join_lines (map (blanks n) (l ∷ ls)) in
    let indented = AreLines-blanks n (l ∷ ls) h in
    let stripped : strip_trailing (strip_leading (10 ∷ text ++ 10 ∷ [])) ≡ text =
      ap strip_trailing (strip_leading-break (text ++ 10 ∷ []))
      ∙ strip_trailing-break text (join_lines-cr (map (blanks n) (l ∷ ls)) indented) in
    let level : min_indent (split_lines text) ≡ some n =
      ap min_indent (split_lines-join_lines (blanks n l) (map (blanks n) ls) indented)
      ∙ min_indent-blanks n (l ∷ ls)
      ∙ ap (shift n) e
      ∙ ap some (omega arith) in
    ap (λ x. strip_all (min_indent (split_lines x)) x) stripped
    ∙ ap (λ o. strip_all o text) level
    ∙ strip_all-blanks n l ls h
