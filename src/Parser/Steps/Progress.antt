-- ===== src/Parser/Steps/Progress.antt =====
-- internal/parser: tests of the next token, and the token that is read where one holds.
use kukicha.Prelude.{
  ℕ, suc, ◌<◌, ◌≡◌, refl, ap, Bool, true, false, not, ◌&&◌, List, [], ◌∷◌, length, arith,
  if◌then◌else◌, inl, inr, Bool-cases,
}
use kukicha.Token.{Token, TokenType, is_type, type_index, token_eof}
use kukicha.Parser.State.{Parser, Run, done, panicked, out_of_fuel, M, and_then, ◌>>=◌, ◌>>◌, pure}
use kukicha.Parser.Cursor.{
  skip_ignored_tokens, head_or_eof, advance, advance_over, check, check_any, matches,
}
use kukicha.Parser.Views.{IsQuiet, skip_ignored_tokens-quiet}
use kukicha.Parser.Steps.{
  Ends, Ends-trans, Halts, step_over-Steps, skip_ignored_tokens-Steps, skip_ignored_tokens-IsQuiet,
}

-- Where a token is left that does not end the file, `advance` reads it.
module _ {A : Type 0} (n : ℕ) (x : Token → M A) (d : (t : Token) → Halts n (x t)) where
  reads_one :
      (r : List Token) (q : Parser)
      → q.rest ≡ r
      → is_type token_eof (head_or_eof r).type ≡ false
      → length q.rest < suc n
      → Ends q (and_then (advance_over r q) x)
  unfolding advance_over type_index
  reads_one [] q e l h = absurd (cc)
  reads_one (t ∷ ts) q e l h = rw l (
      Ends-trans q _ (step_over-Steps t ts q.pending_directives q e) _
        ((d t).at _ (omega (arith, ap length e))))

  advance-IsQuiet :
      (q : Parser)
      → IsQuiet q.rest
      → is_type token_eof (head_or_eof q.rest).type ≡ false
      → length q.rest < suc n
      → Ends q ((advance >>= x) q)
  unfolding advance
  advance-IsQuiet q i l h =
      rw (skip_ignored_tokens-quiet q.before q.rest q i) (reads_one q.rest q refl l h)

and_then_assoc :
    {A B C : Type 0} (r : Run A) (f : A → M B) (g : B → M C)
    → and_then (and_then r f) g ≡ and_then r (λ a. f a >>= g)
and_then_assoc (done a q) f g = refl
and_then_assoc panicked f g = refl
and_then_assoc out_of_fuel f g = refl

abbrev pub next_type : Parser → TokenType
next_type q = (head_or_eof q.rest).type

or_stop :
    (b : Bool) (m : M Bool) (q : Parser)
    → (c : Bool) × (m q ≡ done c q)
    → (c : Bool) × ((if b then pure true else m) q ≡ done c q)
or_stop true m q e = (true, refl)
or_stop false m q e = e

module _ (q : Parser) (i : skip_ignored_tokens q ≡ q) where
  check_any-eof :
      (ks : List TokenType) → is_type token_eof (next_type q) ≡ true → check_any ks q ≡ done false q
  unfolding check_any
  check_any-eof [] e = refl
  check_any-eof (k ∷ ks) e = rw i (rw e (check_any-eof ks e))

  check_any-quiet : (ks : List TokenType) → (b : Bool) × (check_any ks q ≡ done b q)
  unfolding check_any
  check_any-quiet [] = (false, refl)
  check_any-quiet (k ∷ ks) = rw i (or_stop _ (check_any ks) q (check_any-quiet ks))

pub skipped : (p : Parser) → skip_ignored_tokens (skip_ignored_tokens p) ≡ skip_ignored_tokens p
skipped p = skip_ignored_tokens-quiet _ _ (skip_ignored_tokens p) (skip_ignored_tokens-IsQuiet p)

check_any-skipped :
    (k : TokenType) (ks : List TokenType) (p : Parser)
    → check_any (k ∷ ks) p ≡ check_any (k ∷ ks) (skip_ignored_tokens p)
unfolding check_any
check_any-skipped k ks p = rw (skipped p) refl

matches_lem :
    (ks : List TokenType)
    → matches ks ≡ (check_any ks >>= λ found. if found then advance >> pure true else pure false)
unfolding matches
matches_lem ks = refl

-- A step from the place behind the ignored tokens.
pub Ends-skipped : {A : Type 0} (p : Parser) (r : Run A) → Ends (skip_ignored_tokens p) r → Ends p r
Ends-skipped p r e = Ends-trans p (skip_ignored_tokens p) (skip_ignored_tokens-Steps p) r e

both : (a b : Bool) → not a && b ≡ true → a ≡ false
both a b e = ground arith

module _ {A : Type 0} {n : ℕ} {x y : M A} (d : Halts n x) (e : Halts (suc n) y) (p : Parser)
    (h : length p.rest < suc n) where
  -- What follows a test that holds at most where a token is left.
  pub Ends-advance :
      (b : Bool)
      → (b ≡ true → is_type token_eof (next_type (skip_ignored_tokens p)) ≡ false)
      → Ends p ((if b then advance >> x else y) (skip_ignored_tokens p))
  Ends-advance true f = Ends-skipped p _ (
      advance-IsQuiet n (λ t. x) (λ t. d) _ (skip_ignored_tokens-IsQuiet p) (f refl)
        (omega (arith, (skip_ignored_tokens-Steps p).forward)))
  Ends-advance false f =
      Ends-skipped p _ (e.at _ (omega (arith, (skip_ignored_tokens-Steps p).forward)))

  Ends-matched :
      (b : Bool)
      → (b ≡ true → is_type token_eof (next_type (skip_ignored_tokens p)) ≡ false)
      → Ends p (
          and_then
            ((if b then advance >> pure true else pure false) (skip_ignored_tokens p))
            (λ b. if b then x else y))
  Ends-matched true f =
      rw
        (and_then_assoc (advance (skip_ignored_tokens p)) (λ t. pure true)
          (λ b. if b then x else y))
        (Ends-advance true f)
  Ends-matched false f = Ends-advance false f

  Ends-matches :
      (k : TokenType) (ks : List TokenType)
      → Ends p ((matches (k ∷ ks) >>= λ b. if b then x else y) p)
  Ends-matches k ks =
      rw (matches_lem (k ∷ ks), check_any-skipped k ks p)
        (elim (Bool-cases (is_type token_eof (next_type (skip_ignored_tokens p)))) [
          | inl f ↦
              rw (check_any-eof _ (skipped p) (k ∷ ks) f) (Ends-advance false (λ t. absurd (cc)))
          | inr f ↦
              let (b, c) = check_any-quiet _ (skipped p) (k ∷ ks) in rw c (Ends-matched b (λ t. f))
        ])

module _ {A : Type 0} {n : ℕ} {x y : M A} (k : TokenType) where
  pub Halts-matches :
      (ks : List TokenType)
      → Halts n x
      → Halts (suc n) y
      → Halts (suc n) (matches (k ∷ ks) >>= λ b. if b then x else y)
  Halts-matches ks d e = record { at = λ p h. Ends-matches d e p h k ks }

  pub Halts-check-advance :
      Halts n x → Halts (suc n) y → Halts (suc n) (check k >>= λ b. if b then advance >> x else y)
  unfolding check
  Halts-check-advance d e = record { at = λ p h. Ends-advance d e p h _ (λ f. both _ _ f) }

-- Steps that end where a token of type `k` is next and fewer than `n` tokens are left.
pub record HaltsAt {A : Type 0} (k : TokenType) (n : ℕ) (m : M A) : Type 0 where
  pub at : (q : Parser) → IsQuiet q.rest → next_type q ≡ k → length q.rest < n → Ends q (m q)

pub HaltsAt-advance :
    {A : Type 0} {n : ℕ} {x : Token → M A} (k : TokenType)
    → is_type token_eof k ≡ false
    → ((t : Token) → Halts n (x t))
    → HaltsAt k (suc n) (advance >>= x)
HaltsAt-advance {n} {x} k f d = record { at = λ q i e h. advance-IsQuiet n x d q i (rw e f) h }
