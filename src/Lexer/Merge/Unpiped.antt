-- ===== src/Lexer/Merge/Unpiped.antt =====
-- Files without pipes.
use kukicha.Prelude.{
  ℕ, zero, suc, ◌<◌, Bool, true, false, not, List, [], ◌∷◌, ◌++◌, some, ◌≡◌, refl, sym, ap, ◌∙◌,
  arith, length, all, append_assoc, append-nil,
}
use kukicha.Token.{Token, token_pipe}
use kukicha.Lexer.Merge.{
  is, Merge, skip_indents, starts_continuation, merge_newline, merge_step, merge_next, merge_loop,
  merge_run, result_of, merge_line_continuations,
}

abbrev pub no_pipe : List Token → Bool
no_pipe ts = all (λ t. not (is token_pipe t)) ts

abbrev copied : List Token → List Token → Merge
copied r ts = record { left = ts; result = r; absorbed = 0; in_pipe_chain = false }

no_continuation :
    (ts : List Token) → no_pipe ts ≡ true → starts_continuation false (skip_indents ts).1 ≡ false
unfolding starts_continuation skip_indents
no_continuation [] h = refl
no_continuation (t ∷ ts) h = ground (arith, no_continuation ts, h)

merge_step-copied :
    (t : Token) (r ts : List Token)
    → no_pipe (t ∷ ts) ≡ true
    → merge_step t ts (copied r (t ∷ ts)) ≡ copied (r ++ t ∷ []) ts
unfolding merge_step merge_newline
merge_step-copied t r ts h = ground (arith, no_continuation ts, h)

tail_no_pipe : (t : Token) (ts : List Token) → no_pipe (t ∷ ts) ≡ true → no_pipe ts ≡ true
tail_no_pipe t ts h = ground (arith, h)

merge_loop-copied :
    (f : ℕ) (r ts : List Token)
    → no_pipe ts ≡ true
    → length ts < f
    → merge_loop f (copied r ts) ≡ some (copied (r ++ ts) [])
unfolding merge_loop merge_next
merge_loop-copied zero r ts h k = absurd (omega arith)
merge_loop-copied (suc f) r [] h k = ap (λ s. some (copied s [])) (sym (append-nil r))
merge_loop-copied (suc f) r (t ∷ ts) h k =
    ap (merge_loop f) (merge_step-copied t r ts h)
    ∙ merge_loop-copied f (r ++ t ∷ []) ts (tail_no_pipe t ts h) (omega (arith, k))
    ∙ ap (λ s. some (copied s [])) (append_assoc r (t ∷ []) ts)

-- A token list without PIPE is what `mergeLineContinuations` makes of it.
pub merge_line_continuations-no_pipe :
    (tokens : List Token) → no_pipe tokens ≡ true → merge_line_continuations tokens ≡ tokens
unfolding merge_line_continuations merge_run result_of
merge_line_continuations-no_pipe tokens h =
    ap result_of (merge_loop-copied (suc (length tokens)) [] tokens h (omega arith))
