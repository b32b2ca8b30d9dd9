-- ===== src/Blend/Apply/Weave.antt =====
-- internal/blend/apply.go: replacements made in one pass from the front, and the loop of `Apply`
-- against it.
use kukicha.Prelude.{
  ℕ, ◌-◌, ◌≤◌, ◌<◌, ◌≡◌, refl, sym, ap, ◌∙◌, List, [], ◌∷◌, ◌++◌, append_assoc, Bytes, pos_part,
  neg_part, length, take, drop, length-take, take-take, take-append, drop-append, drop-take,
  drop-drop, take-append-drop, take-add, arith,
}
use kukicha.Blend.Suggestion.{Suggestion}
use kukicha.Blend.Apply.{Progress, replace}

abbrev pub begins : Suggestion → ℕ
begins s = pos_part s.start

abbrev pub ends : Suggestion → ℕ
ends s = pos_part s.end

-- A span of at least one byte.
abbrev pub IsProper : Suggestion → Type 0
IsProper s = (neg_part s.start ≡ 0) × (pos_part s.start < pos_part s.end)

-- `es` replace spans between `o` and `n` that do not overlap, in ascending order.
abbrev pub Fits : ℕ → ℕ → List Suggestion → Type 0
Fits o n [] = o ≤ n
Fits o n (s ∷ es) = IsProper s × (o ≤ begins s) × Fits (ends s) n es

-- The text from offset `o` on, with the spans of `es` replaced, read from front to back.
abbrev pub weave : ℕ → List Suggestion → Bytes → Bytes
weave o [] rest = rest
weave o (s ∷ es) rest =
    take (begins s - o) rest ++ (s.replacement ++ weave (ends s) es (drop (ends s - o) rest))

abbrev pub first_start : ℕ → List Suggestion → ℕ
first_start n [] = n
first_start n (s ∷ es) = begins s

pub Fits-bound : (o n : ℕ) (es : List Suggestion) → Fits o n es → o ≤ n
Fits-bound o n [] f = f
Fits-bound o n (s ∷ es) f = omega (arith, Fits-bound (ends s) n es f.2)

pub lower : (o l n : ℕ) (es : List Suggestion) → o ≤ l → Fits l n es → Fits o n es
lower o l n [] h f = omega arith
lower o l n (s ∷ es) h f = (f.0, omega arith, f.2)

pub weave_from :
    (o l n : ℕ) (es : List Suggestion) (xs : Bytes)
    → o ≤ l
    → Fits l n es
    → weave o es xs ≡ take (l - o) xs ++ weave l es (drop (l - o) xs)
weave_from o l n [] xs h f = sym (take-append-drop (l - o) xs)
weave_from o l n (s ∷ es) xs h f =
    (λ i. before i ++ (s.replacement ++ weave (ends s) es (behind i)))
    ∙ append_assoc (take (l - o) xs) (take (begins s - l) (drop (l - o) xs))
        (s.replacement ++ weave (ends s) es (drop (ends s - l) (drop (l - o) xs)))
  where
    before : take (begins s - o) xs ≡ take (l - o) xs ++ take (begins s - l) (drop (l - o) xs)
    before = ap (λ k. take k xs) (omega arith) ∙ sym (take-add (l - o) (begins s - l) xs)

    behind : drop (ends s - o) xs ≡ drop (ends s - l) (drop (l - o) xs)
    behind = ap (λ k. drop k xs) (omega arith) ∙ sym (drop-drop (ends s - l) (l - o) xs)

-- What is replaced so far: `es` between `last_start` and the end of the source.
pub record IsWoven (src : Bytes) (es : List Suggestion) (p : Progress) : Type 0 where
  pub fits : Fits p.last_start (length src) es
  pub first : p.last_start ≡ first_start (length src) es
  pub woven : p.result ≡ take p.last_start src ++ weave p.last_start es (drop p.last_start src)

module _ (src : Bytes) (es : List Suggestion) (p : Progress) (w : IsWoven src es p) where
  take_result : (m : ℕ) → m ≤ p.last_start → take m p.result ≡ take m src
  take_result m h =
      ap (take m) w.woven
      ∙ take-append m (take p.last_start src) (weave p.last_start es (drop p.last_start src))
          (omega (arith, taken))
      ∙ take-take m p.last_start src h
    where
      taken : length (take p.last_start src) ≡ p.last_start
      taken = length-take p.last_start src (Fits-bound p.last_start (length src) es w.fits)

  drop_result : (m : ℕ) → m ≤ p.last_start → drop m p.result ≡ weave m es (drop m src)
  drop_result m h =
      ap (drop m) w.woven
      ∙ drop-append m (take p.last_start src) (weave p.last_start es (drop p.last_start src))
          (omega (arith, taken))
      ∙ (λ i. drop-take m p.last_start src h i ++ weave p.last_start es (again i))
      ∙ sym (weave_from m p.last_start (length src) es (drop m src) h w.fits)
    where
      taken : length (take p.last_start src) ≡ p.last_start
      taken = length-take p.last_start src (Fits-bound p.last_start (length src) es w.fits)

      again : drop p.last_start src ≡ drop (p.last_start - m) (drop m src)
      again = ap (λ k. drop k src) (omega arith) ∙ sym (drop-drop (p.last_start - m) m src)

  pub replace-IsWoven :
      (s : Suggestion) → IsProper s → ends s ≤ p.last_start → IsWoven src (s ∷ es) (replace s p)
  unfolding replace
  replace-IsWoven s proper h = record {
    fits = (proper, omega arith, fits_behind);
    first = refl;
    woven =
        (λ i. take_result (begins s) (omega arith) i ++ (s.replacement ++ drop_result (ends s) h i))
        ∙ sym (weave_front);
  }
    where
      fits_behind : Fits (ends s) (length src) es
      fits_behind = lower (ends s) p.last_start (length src) es h w.fits

      nothing : take (begins s - begins s) (drop (begins s) src) ≡ []
      nothing =
          let e : begins s - begins s ≡ 0 = omega arith in ap (λ k. take k (drop (begins s) src)) e

      rest : drop (ends s - begins s) (drop (begins s) src) ≡ drop (ends s) src
      rest = drop-drop (ends s - begins s) (begins s) src ∙ ap (λ k. drop k src) (omega arith)

      weave_front :
          take (begins s) src ++ weave (begins s) (s ∷ es) (drop (begins s) src)
          ≡ take (begins s) src ++ (s.replacement ++ weave (ends s) es (drop (ends s) src))
      weave_front =
          (λ i. take (begins s) src ++ (nothing i ++ (s.replacement ++ weave (ends s) es (rest i))))
