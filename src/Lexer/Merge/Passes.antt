-- ===== src/Lexer/Merge/Passes.antt =====
-- The loop of `mergeLineContinuations` ends, and an invariant of its rounds holds at its end.
use kukicha.Prelude.{
  ℕ, zero, suc, ◌≤◌, ◌<◌, true, List, [], ◌∷◌, ◌++◌, some, ◌≡◌, refl, ap, ◌∙◌, arith, length,
}
use kukicha.Token.{Token}
use kukicha.Lexer.Merge.{
  Merge, take_comments, skip_indents, drop_break, after_pipe, merge_pipe, merge_newline, merge_step,
  merge_loop, merge_next,
}

take_comments-le : (ts : List Token) → length (take_comments ts).1 ≤ length ts
unfolding take_comments
take_comments-le [] = omega arith
take_comments-le (t ∷ ts) = ground (arith, take_comments-le ts)

pub comments-append : (ts : List Token) → (take_comments ts).0 ++ (take_comments ts).1 ≡ ts
unfolding take_comments
comments-append [] = refl
comments-append (t ∷ ts) = ground (arith, comments-append ts)

skip_indents-le : (ts : List Token) → length (skip_indents ts).1 ≤ length ts
unfolding skip_indents
skip_indents-le [] = omega arith
skip_indents-le (t ∷ ts) = ground (arith, skip_indents-le ts)

after_pipe-le :
    (ts : List Token) (m : Merge) → m.left ≡ ts → length (after_pipe ts m).left ≤ length ts
unfolding after_pipe drop_break
after_pipe-le [] m e = rw e (omega arith)
after_pipe-le (t ∷ ts) m e = ground (arith, skip_indents-le ts)

-- A round leaves fewer tokens.
pub merge_step-lt :
    (t : Token) (ts : List Token) (m : Merge) → length (merge_step t ts m).left < suc (length ts)
unfolding merge_step merge_pipe merge_newline drop_break
merge_step-lt t ts m =
    let left = (take_comments ts).1 in
    ground (
      arith,
      take_comments-le ts,
      skip_indents-le ts,
      after_pipe-le left
          (record m {
            left = left;
            result = m.result ++ t ∷ (take_comments ts).0;
            in_pipe_chain = true;
          })
          refl,
    )

module _ {ℓ} (P : Merge → Type ℓ)
    (keep : (t : Token) (ts : List Token) (m : Merge)
      → m.left ≡ t ∷ ts
      → P m
      → P (merge_step t ts m)) where
  -- What each round keeps holds at the end, which is reached.
  pub merge_loop_rule :
      (f : ℕ) (ts : List Token) (m : Merge)
      → m.left ≡ ts
      → length ts < f
      → P m
      → (n : Merge) × (merge_loop f m ≡ some n) × (n.left ≡ []) × P n
  unfolding merge_loop
  merge_loop_rule zero ts m e h p = absurd (omega arith)
  merge_loop_rule (suc f) [] m e h p = (m, ap (λ left. merge_next (merge_loop f) left m) e, e, p)
  merge_loop_rule (suc f) (t ∷ ts) m e h p =
      let (n, q, r, p2) =
        merge_loop_rule f (merge_step t ts m).left (merge_step t ts m) refl
          (ground (arith, merge_step-lt t ts m)) (keep t ts m e p) in
      (n, ap (λ left. merge_next (merge_loop f) left m) e ∙ q, r, p2)
