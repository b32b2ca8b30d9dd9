-- ===== src/Lexer/Merge/Order.antt =====
-- `mergeLineContinuations` drops layout tokens alone, and keeps the order of all others.
use kukicha.Prelude.{
  suc, Bool, true, ◌&&◌, ◌||◌, List, [], ◌∷◌, ◌++◌, ◌≡◌, refl, sym, ap, ◌∙◌, arith, length, ltb,
  if◌then◌else◌, Bool-cases, inl, inr, append_assoc, append-nil,
}
use kukicha.Token.{Token, token_indent, token_dedent, token_newline, token_pipe}
use kukicha.Lexer.Merge.{
  Merge, is, take_comments, skip_indents, drop_break, after_pipe, merge_pipe, merge_newline,
  merge_step, merge_start, merge_run, merge_line_continuations, starts_continuation, continues_pipe,
}
use kukicha.Lexer.Merge.Passes.{merge_loop_rule, comments-append}

-- A token that carries layout.
abbrev pub is_layout : Token → Bool
is_layout t = is token_newline t || is token_indent t || is token_dedent t

-- The tokens that carry more than layout.
unfoldable pub content_of : List Token → List Token
content_of [] = []
content_of (t ∷ ts) = if is_layout t then content_of ts else t ∷ content_of ts

content_of_nil : content_of [] ≡ []
unfolding content_of
content_of_nil = refl

pub content_of-append :
    (xs ys : List Token) → content_of (xs ++ ys) ≡ content_of xs ++ content_of ys
unfolding content_of
content_of-append [] ys = refl
content_of-append (x ∷ xs) ys = elim (Bool-cases (is_layout x)) [
  | inl h ↦ rw h (content_of-append xs ys)
  | inr h ↦ rw h (ap (◌∷◌ x) (content_of-append xs ys))
]

content_of-layout :
    (t : Token) (ts : List Token) → is_layout t ≡ true → content_of (t ∷ ts) ≡ content_of ts
unfolding content_of
content_of-layout t ts h = rw h

content_of-skip_indents : (ts : List Token) → content_of (skip_indents ts).1 ≡ content_of ts
unfolding skip_indents
content_of-skip_indents [] = refl
content_of-skip_indents (t ∷ ts) = elim (Bool-cases (is token_indent t)) [
  | inl h ↦ rw h (content_of-skip_indents ts ∙ sym (content_of-layout t ts (ground (arith, h))))
  | inr h ↦ rw h refl
]

-- The output so far and the rest hold the same content as the input.
abbrev Keeps : List Token → Merge → Type 0
Keeps input m = content_of m.result ++ content_of m.left ≡ content_of input

module _ (input : List Token) (t : Token) (ts : List Token) (m : Merge) (e : m.left ≡ t ∷ ts) where
  -- A layout token is dropped.
  drop_layout :
      (left : List Token)
      → is_layout t ≡ true
      → content_of left ≡ content_of ts
      → Keeps input m
      → content_of m.result ++ content_of left ≡ content_of input
  drop_layout left h same k =
      ap (◌++◌ (content_of m.result)) (same ∙ sym (content_of-layout t ts h)) ∙ (rw e at k)

  -- Some tokens are moved to the output.
  move :
      (taken left : List Token)
      → taken ++ left ≡ t ∷ ts
      → Keeps input m
      → content_of (m.result ++ taken) ++ content_of left ≡ content_of input
  move taken left p k =
      ap (λ r. r ++ content_of left) (content_of-append m.result taken)
      ∙ append_assoc (content_of m.result) (content_of taken) (content_of left)
      ∙ ap (◌++◌ (content_of m.result)) (sym (content_of-append taken left) ∙ ap content_of p)
      ∙ (rw e at k)

after_pipe-Keeps :
    (input ts : List Token) (m : Merge)
    → m.left ≡ ts
    → Keeps input m
    → Keeps input (after_pipe ts m)
unfolding after_pipe drop_break
after_pipe-Keeps input [] m e k = k
after_pipe-Keeps input (t ∷ ts) m e k = elim (Bool-cases (is token_newline t)) [
  | inr other ↦ rw other k
  | inl line ↦ rw line (elim (Bool-cases (continues_pipe (skip_indents ts).1)) [
    | inl goes_on ↦ rw goes_on (
        drop_layout input t ts m e (skip_indents ts).1 (ground (arith, line))
          (content_of-skip_indents ts) k)
    | inr ends ↦ rw ends k
  ])
]

merge_step-Keeps :
    (input : List Token) (t : Token) (ts : List Token) (m : Merge)
    → m.left ≡ t ∷ ts
    → Keeps input m
    → Keeps input (merge_step t ts m)
unfolding merge_step merge_pipe merge_newline drop_break
merge_step-Keeps input t ts m e k = elim (Bool-cases (is token_dedent t && ltb 0 m.absorbed)) [
  | inl absorb ↦ rw absorb (drop_layout input t ts m e ts (ground (arith, absorb)) refl k)
  | inr keep ↦ rw keep (elim (Bool-cases (is token_pipe t)) [
    | inl pipe ↦ rw pipe (
        let comments = (take_comments ts).0 in
        let left = (take_comments ts).1 in
        after_pipe-Keeps input left
          (record m { left = left; result = m.result ++ t ∷ comments; in_pipe_chain = true }) refl
          (move input t ts m e (t ∷ comments) left (ap (◌∷◌ t) (comments-append ts)) k))
    | inr other ↦ rw other (elim (Bool-cases (is token_newline t)) [
      | inr code ↦ rw code (move input t ts m e (t ∷ []) ts refl k)
      | inl line ↦
          rw line (elim (Bool-cases (starts_continuation m.in_pipe_chain (skip_indents ts).1)) [
            | inl joins ↦ rw joins (
                drop_layout input t ts m e (skip_indents ts).1 (ground (arith, line))
                  (content_of-skip_indents ts) k)
            | inr ends ↦ rw ends (move input t ts m e (t ∷ []) ts refl k)
          ])
    ])
  ])
]

-- Behind the pass stand the same tokens in the same order, but for NEWLINE, INDENT and DEDENT.
pub content_of-merge_line_continuations :
    (tokens : List Token) → content_of (merge_line_continuations tokens) ≡ content_of tokens
unfolding merge_line_continuations merge_run
content_of-merge_line_continuations tokens =
    let (m, ran, over, k) =
      merge_loop_rule (Keeps tokens) (λ t ts m e. merge_step-Keeps tokens t ts m e)
        (suc (length tokens)) tokens (merge_start tokens) refl (omega arith)
        (unfold content_of in refl) in
    rw ran (
      sym (append-nil (content_of m.result))
      ∙ ap (◌++◌ (content_of m.result)) (sym content_of_nil)
      ∙ (rw over at k))
