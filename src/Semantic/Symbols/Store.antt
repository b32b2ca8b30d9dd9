-- ===== src/Semantic/Symbols/Store.antt =====
-- The store of scopes: reading what was allocated or written.
use kukicha.Prelude.{ℕ, ◌<◌, List, [], ◌∷◌, some, ◌≡◌, ◌≢◌, refl, arith, length}
use kukicha.Semantic.Symbols.{Scope, read, write}

pub read-bound : (cells : List Scope) (a : ℕ) (s : Scope) → read cells a ≡ some s → a < length cells
unfolding read
read-bound [] a s h = ground arith
read-bound (c ∷ cells) a s h = ground (arith, read-bound cells a s)

pub read-older :
    (c : Scope) (cells : List Scope) (a : ℕ) → a < length cells → read (c ∷ cells) a ≡ read cells a
unfolding read
read-older c cells a h = ground arith

pub read-newest : (c : Scope) (cells : List Scope) → read (c ∷ cells) (length cells) ≡ some c
unfolding read
read-newest c cells = ground arith

pub length-write :
    (cells : List Scope) (a : ℕ) (v : Scope) → length (write cells a v) ≡ length cells
unfolding write
length-write [] a v = refl
length-write (c ∷ cells) a v = ground (arith, length-write cells a v)

pub read-write :
    (cells : List Scope) (a : ℕ) (v : Scope) → a < length cells → read (write cells a v) a ≡ some v
unfolding read write
read-write [] a v h = ground arith
read-write (c ∷ cells) a v h = ground (arith, read-write cells a v, length-write cells a v)

pub read-write_other :
    (cells : List Scope) (a b : ℕ) (v : Scope) → b ≢ a → read (write cells a v) b ≡ read cells b
unfolding read write
read-write_other [] a b v h = refl
read-write_other (c ∷ cells) a b v h =
    ground (arith, read-write_other cells a b v h, length-write cells a v)
