-- ===== src/Lexer/Termination.antt =====
-- The loop of `ScanTokens` ends, although a multi-line string writes to the source that is read.
use kukicha.Prelude.{
  ℕ, zero, suc, ◌+◌, ◌≤◌, ◌<◌, true, false, ◌||◌, ◌∷◌, ◌≡◌, refl, ap, arith, some, if◌then◌else◌,
  ◌==◌, Bool-cases, inl, inr, is_empty, rest_of,
}
use kukicha.Lexer.Runes.{is_blank, is_digit, is_alpha}
use kukicha.Lexer.Cursor.{Cursor, advance, restart, skip_while, peek, is_at_end}
use kukicha.Lexer.State.{Lexer, Layout, on_layout, on_cursor, error, unexpected_character}
use kukicha.Lexer.Shrinking.{
  error-Scans, Reads, advance-ReadsOn, Reads-trans, advance-Reads, skip_while-Reads,
}
use kukicha.Lexer.Indentation.{handle_indentation}
use kukicha.Lexer.Scan.{
  scan_rune, scan_operator, scan_next, scan_line_start, skip_continuation, scan_token, scan_loop,
  budget, at_unhandled_start, set_handled,
}
use kukicha.Lexer.Nesting.{IsTame}
use kukicha.Lexer.Invariant.{IsValid, IsTame-IsValid}
use kukicha.Lexer.Invariant.Lines.{handle_indentation-Reads, handle_indentation-handled}
use kukicha.Lexer.Invariant.Indentation.{handle_indentation-IsValid}
use kukicha.Lexer.Invariant.Tokens.{scan_rune-Moves}
use kukicha.Lexer.Budget.{budget-Reads, budget-ReadsOn, budget-Restarts}

-- One more while the indentation of a line is to be handled: that may take no rune.
abbrev pending : Layout → ℕ
pending y = if at_unhandled_start y then 1 else 0

abbrev potential : Lexer → ℕ
potential l = budget l.cursor.rest + pending l.layout

-- What a round keeps, and how much fuel it takes.
record RoundFalls (l m : Lexer) : Type 0 where
  keeps : IsValid l → IsValid m
  falls : budget m.cursor.rest + 2 ≤ budget l.cursor.rest

advance-rest : (k : Cursor) → is_at_end k ≡ false → k.rest ≡ peek k ∷ (advance k).rest
unfolding advance
advance-rest k h = ground arith

scan_next-RoundFalls : (l : Lexer) → is_at_end l.cursor ≡ false → RoundFalls l (scan_next l)
unfolding scan_next
scan_next-RoundFalls l h =
    let l1 = on_layout (λ y. record y { at_line_start = false }) (on_cursor advance l) in
    let s = scan_rune-Moves l.cursor (peek l.cursor) l1 (advance-rest l.cursor h) in
    let m = scan_rune (peek l.cursor) l1 in
    let first = advance-ReadsOn l.cursor h in
    record {
      keeps = λ v. s.keeps (ground (arith, v));
      falls = elim s.goes [
        | inl r ↦ budget-ReadsOn l.cursor m.cursor (omega (arith, r, first))
        | inr r ↦ budget-Restarts l.cursor m.cursor r
      ];
    }

-- At the end of the source `advance` returns 0, which no case of the switch takes.
scan_rune_nul : (l : Lexer) → scan_rune 0 l ≡ error (unexpected_character 0) l
unfolding scan_rune scan_operator is_blank is_digit is_alpha
scan_rune_nul l = refl

-- The same, where nothing may be left to read.
record Idles (l m : Lexer) : Type 0 where
  keeps : IsValid l → IsValid m
  rests : budget m.cursor.rest ≤ budget l.cursor.rest

scan_next-Idles : (l : Lexer) → is_at_end l.cursor ≡ true → Idles l (scan_next l)
unfolding scan_next
scan_next-Idles l h =
    let l1 = on_layout (λ y. record y { at_line_start = false }) (on_cursor advance l) in
    let nul : peek l.cursor ≡ 0 = ground arith in
    let s = error-Scans (unexpected_character 0) l1 in
    rw (nul, scan_rune_nul l1)
      (record {
        keeps = λ v. IsTame-IsValid s.tame (ground (arith, v));
        rests = budget-Reads l.cursor _ (Reads-trans (advance-Reads l.cursor) s.reads);
      })

handle_indentation-Idles : (l : Lexer) → Idles l (handle_indentation l)
handle_indentation-Idles l = record {
  keeps = handle_indentation-IsValid l;
  rests = budget-Reads l.cursor _ (handle_indentation-Reads l);
}

-- A round keeps the state well-formed and takes fuel.
record Falls (l m : Lexer) : Type 0 where
  valid : IsValid l → IsValid m
  lower : potential m < potential l

set_handled-IsValid : (l : Lexer) → IsValid l → IsValid (set_handled l)
set_handled-IsValid l v = ground (arith, v)

-- The ways through the third block of `scanToken`.
scan_line_start_rule {ℓ} :
    (P : Lexer → Type ℓ) (l : Lexer)
    → P (scan_next l)
    → (at_unhandled_start l.layout ≡ true → P (scan_next (set_handled l)))
    → (at_unhandled_start l.layout ≡ true → P (handle_indentation (set_handled l)))
    → P (scan_line_start l)
unfolding scan_line_start
scan_line_start_rule P l next marked indented = elim (Bool-cases (at_unhandled_start l.layout)) [
  | inr handled ↦ rw handled next
  | inl fresh ↦ rw fresh (elim (Bool-cases (is_blank (peek l.cursor))) [
    | inl blank ↦ rw blank (indented fresh)
    | inr other ↦
        rw other
          (elim (Bool-cases (peek l.cursor == 10 || peek l.cursor == 13 || peek l.cursor == b'#')) [
            | inl skip ↦ rw skip next
            | inr code ↦ rw code (elim (Bool-cases (is_empty (rest_of l.layout.indent_stack))) [
              | inl flat ↦ rw flat (marked fresh)
              | inr deep ↦ rw deep (indented fresh)
            ])
          ])
  ])
]

round_Falls :
    (l l1 m : Lexer) → RoundFalls l1 m → l1.cursor ≡ l.cursor → (IsValid l → IsValid l1) → Falls l m
round_Falls l l1 m r e k = record {
  valid = λ v. r.keeps (k v);
  lower = ground (arith, r, ap (λ (c : Cursor). budget c.rest) e);
}

scan_line_start-Falls : (l : Lexer) → is_at_end l.cursor ≡ false → Falls l (scan_line_start l)
scan_line_start-Falls l h =
    let l1 = set_handled l in
    scan_line_start_rule (Falls l) l (round_Falls l l _ (scan_next-RoundFalls l h) refl (λ v. v))
      (λ _. round_Falls l l1 _ (scan_next-RoundFalls l1 h) refl (set_handled-IsValid l))
      (λ fresh. record {
        valid = λ v. handle_indentation-IsValid l1 (set_handled-IsValid l v);
        lower =
            ground
              (arith, fresh, handle_indentation-handled l1, (handle_indentation-Idles l1).rests);
      })

scan_line_start-Idles : (l : Lexer) → is_at_end l.cursor ≡ true → Idles l (scan_line_start l)
scan_line_start-Idles l h =
    let l1 = set_handled l in
    let next = scan_next-Idles l1 h in
    let indented = handle_indentation-Idles l1 in
    scan_line_start_rule (Idles l) l (scan_next-Idles l h)
      (λ _. record { keeps = λ v. next.keeps (set_handled-IsValid l v); rests = next.rests })
      (λ _. record {
        keeps = λ v. indented.keeps (set_handled-IsValid l v);
        rests = indented.rests;
      })

-- The first two blocks of `scanToken`.
record Skips (l m : Lexer) : Type 0 where
  tame : IsTame l m
  reads : Reads l.cursor m.cursor
  fresh : pending m.layout ≤ pending l.layout

skip_continuation-Skips : (l : Lexer) → Skips l (skip_continuation l)
unfolding skip_continuation
skip_continuation-Skips l =
    let k = restart (skip_while is_blank l.cursor) in
    ground (arith, skip_while-Reads is_blank l.cursor, skip_while-Reads is_blank k)

-- Every round takes fuel while something is left to read.
scan_token-Falls : (l : Lexer) → is_at_end l.cursor ≡ false → Falls l (scan_token l)
unfolding scan_token
scan_token-Falls l h =
    let l0 = on_cursor restart l in
    let l1 = skip_continuation l0 in
    let s = skip_continuation-Skips l0 in
    let keep = λ (v : IsValid l). IsTame-IsValid s.tame (ground (arith, v)) in
    elim (Bool-cases (is_at_end l1.cursor)) [
      | inr more ↦
          let f = scan_line_start-Falls l1 more in
          record {
            valid = λ v. f.valid (keep v);
            lower = omega (arith, f.lower, s.fresh, budget-Reads l0.cursor l1.cursor s.reads);
          }
      | inl over ↦
          let f = scan_line_start-Idles l1 over in
          record {
            valid = λ v. f.keeps (keep v);
            lower =
                ground
                  (arith, f.rests, budget-ReadsOn l0.cursor l1.cursor (ground (arith, s.reads)));
          }
    ]

-- With more fuel than the potential the loop ends, at the end of the source.
scan_loop-total :
    (f : ℕ) (l : Lexer)
    → potential l < f
    → IsValid l
    → (m : Lexer) × (scan_loop f l ≡ some m) × IsValid m × (is_at_end m.cursor ≡ true)
unfolding scan_loop
scan_loop-total zero l h v = absurd (omega arith)
scan_loop-total (suc f) l h v = elim (Bool-cases (is_at_end l.cursor)) [
  | inl over ↦ (l, rw over refl, v, over)
  | inr more ↦
      let s = scan_token-Falls l more in
      rw more (scan_loop-total f (scan_token l) (omega (arith, s.lower)) (s.valid v))
]

pub scan_all :
    (l : Lexer)
    → IsValid l
    → (m : Lexer) × (scan_loop (budget l.cursor.rest + 2) l ≡ some m)
      × IsValid m
      × (is_at_end m.cursor ≡ true)
scan_all l v = scan_loop-total (budget l.cursor.rest + 2) l (ground arith) v
