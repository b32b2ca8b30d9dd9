-- ===== src/Blend/Apply/Laws.antt =====
-- internal/blend/apply.go: what `Apply` replaces, and what it leaves.
use mathlib.Core.List.{Memᴰ}
use kukicha.Prelude.{
  ℕ, ◌-◌, ◌≤◌, ◌<◌, ◌≡◌, refl, sym, ap, ◌∙◌, true, false, List, [], ◌∷◌, ◌++◌, Bytes, ℤ, pos,
  negsuc, pos_part, neg_part, ltb_ℤ, length, take, drop, take-length, drop-length, append-nil,
  length-append, length-take, inl, inr, ◌⊎◌, Bool-cases, ltb, ◌==◌, arith,
}
use kukicha.Blend.Suggestion.{Suggestion}
use kukicha.Blend.Apply.{
  Progress, is_skipped, replace, apply_one, apply_all, sort_suggestions, apply,
}
use kukicha.Blend.Apply.Weave.{
  begins, ends, IsProper, Fits, Fits-bound, weave, weave_from, lower, first_start, IsWoven,
  replace-IsWoven,
}
use kukicha.Blend.Apply.Order.{
  Descends, sort_suggestions-Descends, sort_suggestions-mem, mem-sort_suggestions,
}

-- A suggestion is among those made, or has no proper span in the source, or covers the start of
-- one that was made.
abbrev pub IsSettled : ℕ → List Suggestion → Suggestion → Type 0
IsSettled n es s =
    Memᴰ s es
    ⊎ (¬ IsProper s)
    ⊎ (n < ends s)
    ⊎ ((t : Suggestion) × Memᴰ t es × (begins s ≤ begins t) × (begins t < ends s))

proper-lt : (a b : ℤ) → neg_part a ≡ 0 → pos_part a < pos_part b → ltb_ℤ a b ≡ true
proper-lt (pos a) (pos b) n h = ground arith
proper-lt (negsuc a) b n h = absurd (omega arith)
proper-lt (pos a) (negsuc b) n h = absurd (omega arith)

length-IsWoven :
    (src : Bytes) (es : List Suggestion) (p : Progress)
    → IsWoven src es p
    → p.last_start ≤ length p.result
length-IsWoven src es p w =
    let w1 = ap length w.woven in
    omega (
      arith,
      length-append (take p.last_start src) (weave p.last_start es (drop p.last_start src)),
      length-take p.last_start src (Fits-bound p.last_start (length src) es w.fits),
    )

module _ (s : Suggestion) (p : Progress) where
  taken : is_skipped s p ≡ false → IsProper s × (ends s ≤ p.last_start)
  unfolding is_skipped
  taken h = ground arith

  skipped :
      p.last_start ≤ length p.result → is_skipped s p ≡ true → IsProper s → p.last_start < ends s
  unfolding is_skipped
  skipped l h proper = ground (arith, proper-lt s.start s.end proper.0 proper.1)

-- What a run of the loop over `ss` makes of the replacements `es`.
pub record Outcome (src : Bytes) (before : List Suggestion) (ss : List Suggestion)
    (es : List Suggestion) (p : Progress) : Type 0 where
  pub woven : IsWoven src es p
  pub kept : (u : Suggestion) → Memᴰ u before → Memᴰ u es
  pub origin : (u : Suggestion) → Memᴰ u es → Memᴰ u before ⊎ Memᴰ u ss
  pub settled : (u : Suggestion) → Memᴰ u ss → IsSettled (length src) es u

abbrev Precede : List Suggestion → List Suggestion → Type 0
Precede ss [] = Unit {0}
Precede ss (e ∷ es) = (t : Suggestion) → Memᴰ t ss → begins t ≤ begins e

proper_or_not : (s : Suggestion) → IsProper s ⊎ (¬ IsProper s)
proper_or_not s = elim (Bool-cases (neg_part s.start == 0)) [
  | inl h ↦ elim (Bool-cases (ltb (begins s) (ends s))) [
    | inl l ↦ inl (ground arith)
    | inr l ↦ inr (λ proper. let below = proper.1 in absurd (ground arith))
  ]
  | inr h ↦ inr (λ proper. let zero = proper.0 in absurd (ground arith))
]

-- A skipped suggestion is settled whatever else is made later.
settle_skipped :
    (src : Bytes) (s : Suggestion) (es es' : List Suggestion) (p : Progress)
    → IsWoven src es p
    → Precede (s ∷ []) es
    → ((u : Suggestion) → Memᴰ u es → Memᴰ u es')
    → is_skipped s p ≡ true
    → IsSettled (length src) es' s
settle_skipped src s es es' p w precede kept h = elim (proper_or_not s) [
  | inr improper ↦ inr (inl improper)
  | inl proper ↦ by_first es precede kept w.first (skipped s p (length-IsWoven src es p w) h proper)
]
  where
    by_first :
        (es₀ : List Suggestion)
        → Precede (s ∷ []) es₀
        → ((u : Suggestion) → Memᴰ u es₀ → Memᴰ u es')
        → p.last_start ≡ first_start (length src) es₀
        → p.last_start < ends s
        → IsSettled (length src) es' s
    by_first [] pre k f late = inr (inr (inl (omega arith)))
    by_first (e ∷ rest) pre k f late =
        inr (inr (inr (e, k e (Memᴰ.head refl), pre s (Memᴰ.head refl), omega arith)))

Precede-head :
    (s : Suggestion) (ss es : List Suggestion) → Precede (s ∷ ss) es → Precede (s ∷ []) es
Precede-head s ss [] pre = tt
Precede-head s ss (e ∷ es) pre = λ t m. pre t (only t m)
  where
    only : (t : Suggestion) → Memᴰ t (s ∷ []) → Memᴰ t (s ∷ ss)
    only t (Memᴰ.head q) = Memᴰ.head q
    only t (Memᴰ.tail m) = elim m [ ]

Precede-tail : (s : Suggestion) (ss es : List Suggestion) → Precede (s ∷ ss) es → Precede ss es
Precede-tail s ss [] pre = tt
Precede-tail s ss (e ∷ es) pre = λ t m. pre t (Memᴰ.tail m)

apply_all-Outcome :
    (src : Bytes) (ss es : List Suggestion) (p : Progress)
    → IsWoven src es p
    → Descends ss
    → Precede ss es
    → (es' : List Suggestion) × Outcome src es ss es' (apply_all ss p)
unfolding apply_all apply_one
apply_all-Outcome src [] es p w d pre =
    (es, record { woven = w; kept = λ u m. m; origin = λ u m. inl m; settled = λ u m. elim m [ ] })
apply_all-Outcome src (s ∷ ss) es p w d pre = elim (Bool-cases (is_skipped s p)) [
  | inl h ↦ rw h (skip h (apply_all-Outcome src ss es p w d.1 (Precede-tail s ss es pre)))
  | inr h ↦ rw h (
      make (
        apply_all-Outcome src ss (s ∷ es) (replace s p)
          (replace-IsWoven src es p w s (taken s p h).0 (taken s p h).1) d.1 d.0))
]
  where
    skip :
        is_skipped s p ≡ true
        → (es' : List Suggestion) × Outcome src es ss es' (apply_all ss p)
        → (es' : List Suggestion) × Outcome src es (s ∷ ss) es' (apply_all ss p)
    skip h (es', o) = (
      es',
      record {
        woven = o.woven;
        kept = o.kept;
        origin = λ u m. later u (o.origin u m);
        settled = λ u m. settle u m;
      },
    )
      where
        later : (u : Suggestion) → Memᴰ u es ⊎ Memᴰ u ss → Memᴰ u es ⊎ Memᴰ u (s ∷ ss)
        later u (inl m) = inl m
        later u (inr m) = inr (Memᴰ.tail m)

        settle : (u : Suggestion) → Memᴰ u (s ∷ ss) → IsSettled (length src) es' u
        settle u (Memᴰ.head q) =
            rw q (settle_skipped src s es es' p w (Precede-head s ss es pre) o.kept h)
        settle u (Memᴰ.tail m) = o.settled u m

    make :
        (es' : List Suggestion) × Outcome src (s ∷ es) ss es' (apply_all ss (replace s p))
        → (es' : List Suggestion) × Outcome src es (s ∷ ss) es' (apply_all ss (replace s p))
    make (es', o) = (
      es',
      record {
        woven = o.woven;
        kept = λ u m. o.kept u (Memᴰ.tail m);
        origin = λ u m. later u (o.origin u m);
        settled = λ u m. settle u m;
      },
    )
      where
        later : (u : Suggestion) → Memᴰ u (s ∷ es) ⊎ Memᴰ u ss → Memᴰ u es ⊎ Memᴰ u (s ∷ ss)
        later u (inl (Memᴰ.head q)) = inr (Memᴰ.head q)
        later u (inl (Memᴰ.tail m)) = inl m
        later u (inr m) = inr (Memᴰ.tail m)

        settle : (u : Suggestion) → Memᴰ u (s ∷ ss) → IsSettled (length src) es' u
        settle u (Memᴰ.head q) = inl (rw q (o.kept s (Memᴰ.head refl)))
        settle u (Memᴰ.tail m) = o.settled u m

-- The replacements `es` of `ss` made at once: their spans ascend and do not overlap, and the other
-- suggestions are settled.
pub record IsApplied (src : Bytes) (ss es : List Suggestion) (result : Bytes) : Type 0 where
  pub fits : Fits 0 (length src) es
  pub woven : result ≡ weave 0 es src
  pub origin : (u : Suggestion) → Memᴰ u es → Memᴰ u ss
  pub settled : (u : Suggestion) → Memᴰ u ss → IsSettled (length src) es u

start-IsWoven : (src : Bytes) → IsWoven src [] (record { result = src; last_start = length src })
start-IsWoven src = record {
  fits = omega arith;
  first = refl;
  woven = sym ((λ i. take-length src i ++ drop-length src i) ∙ append-nil src);
}

-- For every source and every list of suggestions there are suggestions of the list, with spans of at
-- least one byte that lie in the source, ascend and do not overlap, such that Apply returns the
-- source with exactly these spans replaced, and each other suggestion of the list has a negative
-- start, an empty span or an end behind the source, or covers the start of one that was applied.
pub apply-IsApplied :
    (src : Bytes) (ss : List Suggestion)
    → (es : List Suggestion) × IsApplied src ss es (apply src ss)
unfolding apply
apply-IsApplied src [] = (
  [],
  record {
    fits = omega arith;
    woven = refl;
    origin = λ u m. elim m [ ];
    settled = λ u m. elim m [ ];
  },
)
apply-IsApplied src (s ∷ ss) = finish (
    apply_all-Outcome src sorted [] start (start-IsWoven src) (sort_suggestions-Descends (s ∷ ss))
      tt)
  where
    sorted : List Suggestion
    sorted = sort_suggestions (s ∷ ss)

    start : Progress
    start = record { result = src; last_start = length src }

    finish :
        (es : List Suggestion) × Outcome src [] sorted es (apply_all sorted start)
        → (es : List Suggestion) × IsApplied src (s ∷ ss) es (apply_all sorted start).result
    finish (es, o) = (
      es,
      record {
        fits = lower 0 last (length src) es (omega arith) o.woven.fits;
        woven =
            o.woven.woven
            ∙ (λ i. take (from_front i) src ++ weave last es (drop (from_front i) src))
            ∙ sym (weave_from 0 last (length src) es src (omega arith) o.woven.fits);
        origin = λ u m. listed u (o.origin u m);
        settled = λ u m. o.settled u (mem-sort_suggestions u (s ∷ ss) m);
      },
    )
      where
        last : ℕ
        last = (apply_all sorted start).last_start

        from_front : last ≡ last - 0
        from_front = omega arith

        listed : (u : Suggestion) → Memᴰ u [] ⊎ Memᴰ u sorted → Memᴰ u (s ∷ ss)
        listed u (inl m) = elim m [ ]
        listed u (inr m) = sort_suggestions-mem u (s ∷ ss) m
