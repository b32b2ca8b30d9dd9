-- ===== src/Lexer/Budget.antt =====
-- The fuel of `ScanTokens` falls with every step in the source.
use native.Mathlib.Nat.{pow-suc}
use kukicha.Prelude.{ℕ, zero, suc, ◌+◌, ◌*◌, ◌^◌, ◌≤◌, ◌<◌, arith, length}
use kukicha.Lexer.Cursor.{Cursor}
use kukicha.Lexer.Scan.{budget, weight}
use kukicha.Lexer.Shrinking.{Reads, ReadsOn}
use kukicha.Lexer.Shrinking.Injection.{Restarts}

pow_pos : (b : ℕ) → 1 ≤ 3 ^ b
pow_pos zero = omega arith
pow_pos (suc b) = rw (pow-suc 3 b) (omega (arith, pow_pos b))

pow_mono : (a b : ℕ) → a ≤ b → 3 ^ a ≤ 3 ^ b
pow_mono zero b h = pow_pos b
pow_mono (suc a) zero h = absurd (omega arith)
pow_mono (suc a) (suc b) h = rw (pow-suc 3 a, pow-suc 3 b) (omega (arith, pow_mono a b))

product_le : (p q x y : ℕ) → p ≤ q → x ≤ y → p * (x + 2) ≤ q * (y + 2)
product_le p q x y h k = grind arith

product_lt : (p q x y : ℕ) → 1 ≤ p → p ≤ q → x < y → p * (x + 2) + 1 ≤ q * (y + 2)
product_lt p q x y o h k = omega (arith, product_le p q (x + 1) y h (omega arith))

product_restart : (p q x y : ℕ) → 1 ≤ p → p * 3 ≤ q → x ≤ 2 * y + 1 → p * (x + 2) + 1 ≤ q * (y + 2)
product_restart p q x y o h k = omega (
  arith,
  product_le p p x (2 * y + 1) (omega arith) k,
  product_le (p * 3) q y y h (omega arith),
  product_le 1 p y y o (omega arith),
)

module _ (k m : Cursor) where
  pub budget-Reads : Reads k m → budget m.rest ≤ budget k.rest
  unfolding budget
  budget-Reads r = omega (
    arith,
    product_le (3 ^ weight m.rest) (3 ^ weight k.rest) (length m.rest) (length k.rest)
        (pow_mono _ _ r.lighter) r.shorter,
  )

  pub budget-ReadsOn : ReadsOn k m → budget m.rest + 2 ≤ budget k.rest
  unfolding budget
  budget-ReadsOn r = omega (
    arith,
    product_lt (3 ^ weight m.rest) (3 ^ weight k.rest) (length m.rest) (length k.rest) (pow_pos _)
        (pow_mono _ _ r.lightly) r.strictly,
  )

  pub budget-Restarts : Restarts k m → budget m.rest + 2 ≤ budget k.rest
  unfolding budget
  budget-Restarts r = omega (
    arith,
    product_restart (3 ^ weight m.rest) (3 ^ weight k.rest) (length m.rest) (length k.rest)
        (pow_pos _)
        (rw (pow-suc 3 (weight m.rest)) at
          (pow_mono (suc (weight m.rest)) (weight k.rest) r.weaker))
        r.bounded,
  )
