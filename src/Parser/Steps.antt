-- ===== src/Parser/Steps.antt =====
-- internal/parser: what every step of the parser keeps, and steps that end.
pub mod Progress
use kukicha.Prelude.{
  sym, append-nil, append_assoc, ℕ, zero, suc, ◌≤◌, ◌<◌, ◌≡◌, refl, ap, ◌∙◌, Bool, true, false, not,
  List, [], ◌∷◌, ◌++◌, length, arith, if◌then◌else◌, Bytes, inl, inr, Bool-cases,
}
use kukicha.Token.{Token, TokenType, is_type, type_index, token_eof, token_directive}
use kukicha.Ast.Types.{Directive}
use kukicha.Parser.State.{
  Parser, ParserError, parse_error, Run, done, panicked, out_of_fuel, M, and_then, ◌>>=◌, ◌>>◌,
  pure, add_error,
}
use kukicha.Parser.Cursor.{
  is_ignored, collect, step_over, skip_over, skip_ignored_tokens, head_or_eof, peek_token, advance,
  advance_over, check, matches, consume,
}
use kukicha.Parser.Views.{IsQuiet, skip_ignored_tokens-quiet}

-- The tokens before a place, the last first, in front of those behind it.
abbrev pub put_back : List Token → List Token → List Token
put_back [] r = r
put_back (t ∷ b) r = put_back b (t ∷ r)

-- From `p` to `q` the place moves forward at most, the tokens are the same, and errors are appended.
pub record Steps (p q : Parser) : Type 0 where
  pub forward : length q.rest ≤ length p.rest
  pub tokens_kept : put_back q.before q.rest ≡ put_back p.before p.rest
  pub reported : List ParserError
  pub errors_kept : q.errors ≡ p.errors ++ reported

pub Steps-refl : (p : Parser) → Steps p p
Steps-refl p = record {
  forward = omega arith;
  tokens_kept = refl;
  reported = [];
  errors_kept = sym (append-nil p.errors);
}

pub Steps-trans : (p q r : Parser) → Steps p q → Steps q r → Steps p r
Steps-trans p q r s t = record {
  forward = omega (arith, s.forward, t.forward);
  tokens_kept = t.tokens_kept ∙ s.tokens_kept;
  reported = s.reported ++ t.reported;
  errors_kept = rw t.errors_kept (rw s.errors_kept (append_assoc p.errors s.reported t.reported));
}

-- A run that is done, a number of steps behind `p`.
abbrev pub Ends : {A : Type 0} → Parser → Run A → Type 0
Ends p (done a q) = Steps p q
Ends p panicked = ⊥
Ends p out_of_fuel = ⊥

-- Steps that end where fewer than `n` tokens are left.
pub record Halts {A : Type 0} (n : ℕ) (m : M A) : Type 0 where
  pub at : (p : Parser) → length p.rest < n → Ends p (m p)

pub Ends-trans : {A : Type 0} (p q : Parser) → Steps p q → (r : Run A) → Ends q r → Ends p r
Ends-trans p q s panicked e = e
Ends-trans p q s out_of_fuel e = e
Ends-trans p q s (done a t) e = Steps-trans p q t s e

Ends-and_then :
    {A B : Type 0} (p : Parser) (r : Run A) (k : A → M B)
    → Ends p r
    → ((a : A) (q : Parser) → Steps p q → Ends q (k a q))
    → Ends p (and_then r k)
Ends-and_then p panicked k e h = e
Ends-and_then p out_of_fuel k e h = e
Ends-and_then p (done a q) k e h = Ends-trans p q e (k a q) (h a q e)

module _ {A : Type 0} {n : ℕ} where
  pub Halts-pure : (a : A) → Halts n (pure a)
  Halts-pure a = record { at = λ p h. Steps-refl p }

  pub Halts->>= :
      {B : Type 0} {m : M B} {k : B → M A}
      → Halts n m
      → ((b : B) → Halts n (k b))
      → Halts n (m >>= k)
  Halts->>= {m} {k} d e = record {
    at = λ p h. Ends-and_then p (m p) k (d.at p h) (λ b q s. (e b).at q (omega (arith, s.forward)));
  }

  pub Halts-if : (b : Bool) {x y : M A} → Halts n x → Halts n y → Halts n (if b then x else y)
  Halts-if true d e = d
  Halts-if false d e = e

  pub Halts-le : (k : ℕ) {m : M A} → k ≤ n → Halts n m → Halts k m
  Halts-le k l d = record { at = λ p h. d.at p (omega arith) }

pub step_over-Steps :
    (t : Token) (ts : List Token) (ds : List Directive) (p : Parser)
    → p.rest ≡ t ∷ ts
    → Steps p (step_over t ts (record p { pending_directives = ds }))
step_over-Steps t ts ds p e = record {
  forward = rw e (omega arith);
  tokens_kept = rw e refl;
  reported = [];
  errors_kept = sym (append-nil p.errors);
}

collect-Steps :
    (t : Token) (ts : List Token) (p : Parser)
    → p.rest ≡ t ∷ ts
    → Steps p (step_over t ts (collect t p))
collect-Steps t ts p e = elim (Bool-cases (is_type token_directive t.type)) [
  | inl d ↦ rw d (step_over-Steps t ts _ p e)
  | inr d ↦ rw d (step_over-Steps t ts p.pending_directives p e)
]

skip_over-Steps : (r : List Token) (p : Parser) → p.rest ≡ r → Steps p (skip_over r p)
unfolding skip_over
skip_over-Steps [] p e = Steps-refl p
skip_over-Steps (t ∷ ts) p e = elim (Bool-cases (is_ignored t)) [
  | inl i ↦ rw i (
      Steps-trans p (step_over t ts (collect t p)) _ (collect-Steps t ts p e)
        (skip_over-Steps ts _ refl))
  | inr i ↦ rw i (Steps-refl p)
]

skip_over-IsQuiet : (r : List Token) (p : Parser) → p.rest ≡ r → IsQuiet (skip_over r p).rest
unfolding skip_over type_index
skip_over-IsQuiet [] p e = rw e refl
skip_over-IsQuiet (t ∷ ts) p e = elim (Bool-cases (is_ignored t)) [
  | inl i ↦ rw i (skip_over-IsQuiet ts _ refl)
  | inr i ↦ rw i (rw e i)
]

pub skip_ignored_tokens-Steps : (p : Parser) → Steps p (skip_ignored_tokens p)
unfolding skip_ignored_tokens
skip_ignored_tokens-Steps p = skip_over-Steps p.rest p refl

pub skip_ignored_tokens-IsQuiet : (p : Parser) → IsQuiet (skip_ignored_tokens p).rest
unfolding skip_ignored_tokens
skip_ignored_tokens-IsQuiet p = skip_over-IsQuiet p.rest p refl

advance_over-Steps : (r : List Token) (p : Parser) → p.rest ≡ r → Ends p (advance_over r p)
unfolding advance_over
advance_over-Steps [] p e = Steps-refl p
advance_over-Steps (t ∷ ts) p e = elim (Bool-cases (is_type token_eof t.type)) [
  | inl d ↦ rw d (Steps-refl p)
  | inr d ↦ rw d (step_over-Steps t ts p.pending_directives p e)
]

module _ {n : ℕ} where
  pub Halts-peek_token : Halts n peek_token
  unfolding peek_token
  Halts-peek_token = record { at = λ p h. skip_ignored_tokens-Steps p }

  pub Halts-add_error : (t : Token) (message : Bytes) → Halts n (add_error t message)
  unfolding add_error
  Halts-add_error t message = record {
    at = λ p h. record {
      forward = omega arith;
      tokens_kept = refl;
      reported = parse_error t message ∷ [];
      errors_kept = refl;
    };
  }

  pub Halts-advance : Halts n advance
  unfolding advance
  Halts-advance = record {
    at = λ p h.
        Ends-trans p _ (skip_ignored_tokens-Steps p) _
          (advance_over-Steps _ (skip_ignored_tokens p) refl);
  }

pub ruleset halts_rules =
    (Halts->>=, Halts-if, Halts-pure, Halts-peek_token, Halts-advance, Halts-add_error)

module _ {n : ℕ} (k : TokenType) where
  pub Halts-check : Halts n (check k)
  unfolding check
  Halts-check = search halts_rules

  pub Halts-consume : (message : Bytes) → Halts n (consume k message)
  unfolding consume
  Halts-consume message = search (halts_rules, Halts-check)
