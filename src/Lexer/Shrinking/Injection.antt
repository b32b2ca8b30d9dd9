-- ===== src/Lexer/Shrinking/Injection.antt =====
-- A multi-line string puts its content back into the source, but then the quotes left weigh less.
use kukicha.Prelude.{
  ℕ, ◌+◌, ◌*◌, ◌≤◌, ◌<◌, Bool, true, false, ◌&&◌, List, [], ◌∷◌, ◌++◌, ◌≡◌, refl, ap, ==_iff,
  length, arith, sum_by-append, length-append, length-sum_by, Bool-cases, inl, inr, ◌⊎◌, ◌==◌,
  has_prefix,
}
use kukicha.Token.{type_index, token_string_head, token_string, token_string_mid, token_string_tail}
use kukicha.Lexer.Cursor.{Cursor, advance, take_rune, matches, peek_next}
use kukicha.Lexer.State.{Lexer, on_cursor}
use kukicha.Lexer.Nesting.{IsTame, IsTame-trans, IsTame-cursor, IsPlain}
use kukicha.Lexer.Scan.{weight, quote_weight}
use kukicha.Lexer.Strings.{
  splice, scan_string_from_content, rescan, take_raw, triple_run, single_run, head_quote,
  scan_triple_quote_string, scan_single_quote_string, scan_string, scan_string_continuation,
}
use kukicha.Lexer.Strings.Dedent.{inject, dedent_triple_quote}
use kukicha.Lexer.Strings.Dedent.Size.{dedent_triple_quote-le, inject-le, length-inject}
use kukicha.Lexer.Shrinking.{
  Reads, advance-Reads, Scans, Scans-trans, cursor-Scans, add_token_with_lexeme-Scans,
}
use kukicha.Lexer.Shrinking.Body.{scan_string_body-Scans}

string-IsPlain :
    IsPlain token_string
    × IsPlain token_string_head
    × IsPlain token_string_mid
    × IsPlain token_string_tail
unfolding type_index
string-IsPlain = ((refl, refl), (refl, refl), (refl, refl), (refl, refl))

-- The content in the source again weighs what it weighed, and one quote more.
weight-splice :
    (cs : List ℕ) (k : Cursor) → weight (splice cs k).rest ≤ weight cs + 1 + weight k.rest
unfolding quote_weight
weight-splice cs k = omega (
  arith,
  sum_by-append quote_weight (inject false cs) (b'"' ∷ k.rest),
  inject-le quote_weight refl refl false cs,
)

length-splice :
    (cs : List ℕ) (k : Cursor) → length (splice cs k).rest ≤ 2 * length cs + 1 + length k.rest
length-splice cs k =
    omega (arith, length-append (inject false cs) (b'"' ∷ k.rest), length-inject false cs)

-- No block is opened, and what is left is bounded by the content and by what was left.
record Rescans (raw : List ℕ) (l m : Lexer) : Type 0 where
  tame : IsTame l m
  weighs : weight m.cursor.rest ≤ weight raw + 1 + weight l.cursor.rest
  holds : length m.cursor.rest ≤ 2 * length raw + 1 + length l.cursor.rest

length-dedent : (raw : List ℕ) → length (dedent_triple_quote raw) ≤ length raw
length-dedent raw =
    rw (length-sum_by raw, length-sum_by (dedent_triple_quote raw))
      (dedent_triple_quote-le (λ _. 1) raw)

rescan-Rescans : (start : ℕ) (raw : List ℕ) (l : Lexer) → Rescans raw l (rescan start raw l)
unfolding rescan scan_string_from_content
rescan-Rescans start raw l =
    let content = dedent_triple_quote raw in
    let l1 = on_cursor (λ k. record k { line = start }) l in
    let s =
      scan_string_body-Scans token_string_head token_string string-IsPlain.1 string-IsPlain.0 b'"'
        (on_cursor (splice content) l1) in
    record {
      tame = record {
        indents = s.tame.indents;
        closures = s.tame.closures;
        closure_parens = s.tame.closure_parens;
        braces = s.tame.braces;
        blocks = s.tame.blocks;
        depth = s.tame.depth;
      };
      weighs = omega (
        arith,
        s.reads,
        weight-splice content l1.cursor,
        dedent_triple_quote-le quote_weight raw,
      );
      holds = omega (arith, s.reads, length-splice content l1.cursor, length-dedent raw);
    }

-- The raw content of a literal and what is left behind it are not more than there was.
record Splits (raw cs : List ℕ) (r : Cursor × List ℕ) : Type 0 where
  weights : weight r.1 + weight r.0.rest ≤ weight raw + weight cs
  lengths : length r.1 + length r.0.rest ≤ length raw + length cs

Splits-step :
    (raw : List ℕ) (c : ℕ) (cs : List ℕ) (r : Cursor × List ℕ)
    → Splits (raw ++ c ∷ []) cs r
    → Splits raw (c ∷ cs) r
Splits-step raw c cs r s =
    omega (arith, sum_by-append quote_weight raw (c ∷ []), length-append raw (c ∷ []))

pub take_raw-rest : (c : ℕ) (cs : List ℕ) (k : Cursor) → (take_raw c cs k).rest ≡ cs
take_raw-rest c cs k = ground arith

triple_run-Splits :
    (cs : List ℕ) (k : Cursor) (raw : List ℕ) → k.rest ≡ cs → Splits raw cs (triple_run cs k raw)
unfolding triple_run
triple_run-Splits [] k raw e = rw e (omega arith)
triple_run-Splits (c ∷ cs) k raw e =
    elim (Bool-cases (c == b'"' && has_prefix cs (b'"' ∷ b'"' ∷ []))) [
      | inl over ↦ rw over (
          omega (
            arith,
            ap weight e,
            ap (length {0}) e,
            advance-Reads k,
            advance-Reads (advance k),
            advance-Reads (advance (advance k)),
          ))
      | inr more ↦ rw more (
          Splits-step raw c cs _
            (triple_run-Splits cs (take_raw c cs k) (raw ++ c ∷ []) (take_raw-rest c cs k)))
    ]

single_run-Splits :
    (b : Bool) (cs : List ℕ) (k : Cursor) (raw : List ℕ)
    → k.rest ≡ cs
    → Splits raw cs (single_run b cs k raw)
unfolding single_run
single_run-Splits true [] k raw e = rw e (omega arith)
single_run-Splits false [] k raw e = rw e (omega arith)
single_run-Splits true (c ∷ cs) k raw e =
    Splits-step raw c cs _ (single_run-Splits false cs (take_rune c cs k) (raw ++ c ∷ []) refl)
single_run-Splits false (c ∷ cs) k raw e = elim (Bool-cases (c == b'\'')) [
  | inl over ↦ rw over (omega arith)
  | inr more ↦ rw more (elim (Bool-cases (c == b'\\' && head_quote cs)) [
    | inl escape ↦
        rw escape
          (omega (arith, single_run-Splits true cs (take_raw c cs k) raw (take_raw-rest c cs k)))
    | inr plain ↦ rw plain (
        Splits-step raw c cs _
          (single_run-Splits false cs (take_raw c cs k) (raw ++ c ∷ []) (take_raw-rest c cs k)))
  ])
]

-- The source is cut short by at least one quote.
pub record Restarts (k m : Cursor) : Type 0 where
  pub weaker : weight m.rest < weight k.rest
  pub bounded : length m.rest ≤ 2 * length k.rest + 1

triple-weight :
    (k : Cursor)
    → matches b'"' k ≡ true
    → peek_next k ≡ b'"'
    → weight (advance (advance k)).rest + 2 ≡ weight k.rest
unfolding matches advance quote_weight
triple-weight k p q = ground arith

scan_triple_quote_string-Progress :
    (l : Lexer)
    → matches b'"' l.cursor ≡ true
    → peek_next l.cursor ≡ b'"'
    → IsTame l (scan_triple_quote_string (on_cursor (λ k. advance (advance k)) l))
      × Restarts l.cursor (scan_triple_quote_string (on_cursor (λ k. advance (advance k)) l)).cursor
unfolding scan_triple_quote_string
scan_triple_quote_string-Progress l p q =
    let k = advance (advance l.cursor) in
    let r = triple_run k.rest k [] in
    let s = triple_run-Splits k.rest k [] refl in
    let t = rescan-Rescans k.line r.1 (record l { cursor = r.0 }) in
    (
      IsTame-trans (IsTame-cursor r.0 l) t.tame,
      omega (
        arith,
        s,
        t,
        triple-weight l.cursor p q,
        advance-Reads l.cursor,
        advance-Reads (advance l.cursor),
      ),
    )

-- `scanString`: the source is only read on, or restarts with fewer quotes.
pub scan_string-Progress :
    (l : Lexer)
    → IsTame l (scan_string l)
      × (Reads l.cursor (scan_string l).cursor ⊎ Restarts l.cursor (scan_string l).cursor)
unfolding scan_string
scan_string-Progress l = elim (Bool-cases (matches b'"' l.cursor)) [
  | inl quoted ↦ rw quoted (elim (Bool-cases (peek_next l.cursor == b'"')) [
    | inl triple ↦ rw triple (
        let p = scan_triple_quote_string-Progress l quoted ((==_iff _ _).0 triple) in
        (p.0, inr p.1))
    | inr empty ↦ rw empty (
        let s =
          Scans-trans (cursor-Scans l (advance-Reads l.cursor))
            (add_token_with_lexeme-Scans token_string [] (on_cursor advance l) string-IsPlain.0) in
        (s.tame, inl s.reads))
  ])
  | inr plain ↦ rw plain (
      let s =
        scan_string_body-Scans token_string_head token_string string-IsPlain.1 string-IsPlain.0 b'"'
          l in
      (s.tame, inl s.reads))
]

-- `scanSingleQuoteString`, where `k` stands before the opening quote.
pub scan_single_quote_string-Progress :
    (k : Cursor) (l : Lexer)
    → k.rest ≡ b'\'' ∷ l.cursor.rest
    → IsTame l (scan_single_quote_string l) × Restarts k (scan_single_quote_string l).cursor
unfolding scan_single_quote_string quote_weight
scan_single_quote_string-Progress k l e =
    let r = single_run false l.cursor.rest l.cursor [] in
    let s = single_run-Splits false l.cursor.rest l.cursor [] refl in
    let t = rescan-Rescans l.cursor.line r.1 (record l { cursor = r.0 }) in
    (IsTame-trans (IsTame-cursor r.0 l) t.tame, omega (arith, s, t, ap weight e, ap (length {0}) e))

pub scan_string_continuation-Scans : (q : ℕ) (l : Lexer) → Scans l (scan_string_continuation q l)
unfolding scan_string_continuation
scan_string_continuation-Scans q =
    scan_string_body-Scans token_string_mid token_string_tail string-IsPlain.2 string-IsPlain.3 q
