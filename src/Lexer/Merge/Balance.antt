-- ===== src/Lexer/Merge/Balance.antt =====
-- `mergeLineContinuations` absorbs an INDENT only with the DEDENT that closes it.

use kukicha.Prelude.{
  ℕ, zero, suc, ◌+◌, ◌-◌, ◌≤◌, ◌<◌, Bool, true, false, ◌&&◌, List, [], ◌∷◌, ◌++◌, Option, none,
  some, ◌≡◌, refl, sym, ap, ◌∙◌, arith, length, ltb, Bool-cases, inl, inr,
}
use kukicha.Token.{
  Token, TokenType, is_type, type_index, is_type-exclusive, token_indent, token_dedent,
  token_newline, token_pipe, token_comment,
}
use kukicha.Lexer.Nesting.{nest, nest_step, nest-append, close_level, IsPlain, nest_step-IsPlain}
use kukicha.Lexer.Merge.{
  merge_line_continuations, starts_continuation, continues_pipe, Merge, is, take_comments,
  skip_indents, drop_break, after_pipe, merge_pipe, merge_newline, merge_step, merge_start,
  merge_run,
}
use kukicha.Lexer.Merge.Passes.{merge_loop_rule, comments-append}

-- A type of which a token is, with the two tests that it then fails.
is-IsPlain : (u : TokenType) (t : Token) → IsPlain u → is u t ≡ true → IsPlain t.type
unfolding is
is-IsPlain u t p h =
    (is_type-exclusive t.type u token_indent h p.0, is_type-exclusive t.type u token_dedent h p.1)

merge-IsPlain : IsPlain token_newline × IsPlain token_pipe × IsPlain token_comment
unfolding type_index
merge-IsPlain = ((refl, refl), (refl, refl), (refl, refl))

nest-skip_indents :
    (d : ℕ) (ts : List Token)
    → nest (some d) ts ≡ nest (some (d + (skip_indents ts).0)) (skip_indents ts).1
unfolding skip_indents is
nest-skip_indents d [] = ground arith
nest-skip_indents d (t ∷ ts) = elim (Bool-cases (is_type t.type token_indent)) [
  | inl h ↦ rw h (nest-skip_indents (suc d) ts ∙ ground arith)
  | inr h ↦ rw h (ground arith)
]

nest-comments : (o : Option ℕ) (ts : List Token) → nest o (take_comments ts).0 ≡ o
unfolding take_comments
nest-comments o [] = refl
nest-comments o (t ∷ ts) = elim (Bool-cases (is token_comment t)) [
  | inl h ↦ rw h (
      nest-comments (nest_step o t.type) ts
      ∙ nest_step-IsPlain o t.type (is-IsPlain token_comment t merge-IsPlain.2 h))
  | inr h ↦ rw h refl
]

-- The output so far stands at `level`, and with the absorbed INDENTs the rest ends at `final`.
record IsBalanced (final : ℕ) (m : Merge) : Type 0 where
  level : ℕ
  built : nest (some 0) m.result ≡ some level
  remains : nest (some (level + m.absorbed)) m.left ≡ some final

nest-none : (ts : List Token) → nest none ts ≡ none
nest-none [] = refl
nest-none (t ∷ ts) = elim (Bool-cases (is_type t.type token_indent)) [
  | inl h ↦ rw h (nest-none ts)
  | inr h ↦ rw h (elim (Bool-cases (is_type t.type token_dedent)) [
    | inl g ↦ rw g (nest-none ts)
    | inr g ↦ rw g (nest-none ts)
  ])
]

close_pos : (n : ℕ) → 0 < n → close_level (some n) ≡ some (n - 1)
close_pos zero h = absurd (omega arith)
close_pos (suc n) h = ground arith

closing :
    (level absorbed final : ℕ) (ts : List Token)
    → ltb 0 absorbed ≡ false
    → nest (close_level (some (level + absorbed))) ts ≡ some final
    → (next : ℕ) × (close_level (some level) ≡ some next)
      × (nest (some (next + absorbed)) ts ≡ some final)
closing zero zero final ts none_left h = ground (arith, nest-none ts)
closing (suc level) zero final ts none_left h =
    (level, refl, ap (λ o. nest o ts) (ground (arith, close_pos (suc level + 0))) ∙ h)
closing level (suc a) final ts none_left h = ground arith

-- A token that is passed on, unless it is a DEDENT to absorb.
pass_on :
    (level absorbed final : ℕ) (t : Token) (ts : List Token)
    → (is token_dedent t && ltb 0 absorbed) ≡ false
    → nest (some (level + absorbed)) (t ∷ ts) ≡ some final
    → (next : ℕ) × (nest_step (some level) t.type ≡ some next)
      × (nest (some (next + absorbed)) ts ≡ some final)
unfolding is
pass_on level absorbed final t ts skip h = elim (Bool-cases (is_type t.type token_indent)) [
  | inl opens ↦ (suc level, rw opens, ap (λ n. nest (some n) ts) (omega arith) ∙ (rw opens at h))
  | inr other ↦ elim (Bool-cases (is_type t.type token_dedent)) [
    | inr plain ↦ (level, rw (other, plain), rw (other, plain) at h)
    | inl closes ↦
        let (next, up, rest) =
          closing level absorbed final ts (ground (arith, closes, skip))
            (rw (other, closes) at h) in
        (next, rw (other, closes) up, rest)
  ]
]

absorbed_step :
    (level absorbed : ℕ) (t : Token)
    → (is token_dedent t && ltb 0 absorbed) ≡ true
    → some (level + (absorbed - 1)) ≡ nest_step (some (level + absorbed)) t.type
unfolding is type_index
absorbed_step level absorbed t h =
    let closes : is_type t.type token_dedent ≡ true = ground (arith, h) in
    let other = is_type-exclusive t.type token_dedent token_indent closes refl in
    ground (arith, h, closes, other, close_pos (level + absorbed))

module _ (final : ℕ) (t : Token) (ts : List Token) (m : Merge) (e : m.left ≡ t ∷ ts) where
  pass_on-IsBalanced :
      (chain : Bool)
      → (is token_dedent t && ltb 0 m.absorbed) ≡ false
      → IsBalanced final m
      → IsBalanced final
          (record m { left = ts; result = m.result ++ t ∷ []; in_pipe_chain = chain })
  pass_on-IsBalanced chain skip b =
      let (next, up, rest) = pass_on b.level m.absorbed final t ts skip (rw e at b.remains) in
      record {
        level = next;
        built = nest-append (some 0) m.result (t ∷ []) ∙ rw b.built up;
        remains = rest;
      }

  absorb-IsBalanced :
      (is token_dedent t && ltb 0 m.absorbed) ≡ true
      → IsBalanced final m
      → IsBalanced final (record m { left = ts; absorbed = m.absorbed - 1 })
  absorb-IsBalanced h b = record {
    level = b.level;
    built = b.built;
    remains = ap (λ o. nest o ts) (absorbed_step (b.level) m.absorbed t h) ∙ (rw e at b.remains);
  }

drop_break-IsBalanced :
    (final : ℕ) (t : Token) (ts : List Token) (m : Merge)
    → m.left ≡ t ∷ ts
    → is token_newline t ≡ true
    → IsBalanced final m
    → IsBalanced final (drop_break ts m)
unfolding drop_break
drop_break-IsBalanced final t ts m e h b = record {
  level = b.level;
  built = b.built;
  remains =
      ap (λ n. nest (some n) (skip_indents ts).1) (omega arith)
      ∙ sym (nest-skip_indents (b.level + m.absorbed) ts)
      ∙ ap (λ o. nest o ts)
          (sym (nest_step-IsPlain _ t.type (is-IsPlain token_newline t merge-IsPlain.0 h)))
      ∙ (rw e at b.remains);
}

newline_not_dedent : (t : Token) → is token_newline t ≡ true → is token_dedent t ≡ false
unfolding is
newline_not_dedent t h = (is-IsPlain token_newline t merge-IsPlain.0 h).1

after_pipe-IsBalanced :
    (final : ℕ) (ts : List Token) (m : Merge)
    → m.left ≡ ts
    → IsBalanced final m
    → IsBalanced final (after_pipe ts m)
unfolding after_pipe
after_pipe-IsBalanced final [] m e b = b
after_pipe-IsBalanced final (t ∷ ts) m e b = elim (Bool-cases (is token_newline t)) [
  | inr other ↦ rw other b
  | inl line ↦ rw line (elim (Bool-cases (continues_pipe (skip_indents ts).1)) [
    | inl goes_on ↦ rw goes_on (drop_break-IsBalanced final t ts m e line b)
    | inr ends ↦ rw ends b
  ])
]

module _ (final : ℕ) (t : Token) (ts : List Token) (m : Merge) (e : m.left ≡ t ∷ ts) where
  merge_pipe-IsBalanced :
      is token_pipe t ≡ true → IsBalanced final m → IsBalanced final (merge_pipe t ts m)
  unfolding merge_pipe
  merge_pipe-IsBalanced h b =
      let comments = (take_comments ts).0 in
      let left = (take_comments ts).1 in
      let plain =
        λ (o : Option ℕ). nest_step-IsPlain o t.type (is-IsPlain token_pipe t merge-IsPlain.1 h) in
      after_pipe-IsBalanced final left
        (record m { left = left; result = m.result ++ t ∷ comments; in_pipe_chain = true }) refl
        (record {
          level = b.level;
          built =
              nest-append (some 0) m.result (t ∷ comments)
              ∙ ap (λ o. nest (nest_step o t.type) comments) b.built
              ∙ nest-comments (nest_step (some b.level) t.type) ts
              ∙ plain (some b.level);
          remains =
              ap (λ o. nest o left) (sym (nest-comments (some (b.level + m.absorbed)) ts))
              ∙ sym (nest-append (some (b.level + m.absorbed)) comments left)
              ∙ ap (nest (some (b.level + m.absorbed))) (comments-append ts)
              ∙ ap (λ o. nest o ts) (sym (plain (some (b.level + m.absorbed))))
              ∙ (rw e at b.remains);
        })

  merge_newline-IsBalanced :
      is token_newline t ≡ true → IsBalanced final m → IsBalanced final (merge_newline t ts m)
  unfolding merge_newline
  merge_newline-IsBalanced h b =
      elim (Bool-cases (starts_continuation m.in_pipe_chain (skip_indents ts).1)) [
        | inl joins ↦ rw joins (drop_break-IsBalanced final t ts m e h b)
        | inr ends ↦
            rw ends
              (pass_on-IsBalanced final t ts m e false (ground (arith, newline_not_dedent t h)) b)
      ]

  merge_step-IsBalanced : IsBalanced final m → IsBalanced final (merge_step t ts m)
  unfolding merge_step
  merge_step-IsBalanced b = elim (Bool-cases (is token_dedent t && ltb 0 m.absorbed)) [
    | inl absorb ↦ rw absorb (absorb-IsBalanced final t ts m e absorb b)
    | inr keep ↦ rw keep (elim (Bool-cases (is token_pipe t)) [
      | inl pipe ↦ rw pipe (merge_pipe-IsBalanced pipe b)
      | inr other ↦ rw other (elim (Bool-cases (is token_newline t)) [
        | inl line ↦ rw line (merge_newline-IsBalanced line b)
        | inr code ↦ rw code (pass_on-IsBalanced final t ts m e m.in_pipe_chain keep b)
      ])
    ])
  ]

-- Where every DEDENT closes an INDENT and `d` INDENTs stay open, the same holds of the merged
-- tokens, with at most `d` open.
pub nest-merge_line_continuations :
    (tokens : List Token) (d : ℕ)
    → nest (some 0) tokens ≡ some d
    → (e : ℕ) × (nest (some 0) (merge_line_continuations tokens) ≡ some e) × (e ≤ d)
unfolding merge_line_continuations merge_run
nest-merge_line_continuations tokens d h =
    let (m, ran, over, b) =
      merge_loop_rule (IsBalanced d) (λ t ts m e. merge_step-IsBalanced d t ts m e)
        (suc (length tokens)) tokens (merge_start tokens) refl (omega arith)
        (record { level = 0; built = refl; remains = h }) in
    (b.level, rw (ran) b.built, ground (arith, rw over at b.remains))
