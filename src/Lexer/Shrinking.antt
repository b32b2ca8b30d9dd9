-- ===== src/Lexer/Shrinking.antt =====
-- What is left of the source, measured by its length and by the weight of its quotes.
pub mod Escapes
pub mod Source
pub mod Body
pub mod Injection
pub mod Literals
use kukicha.Prelude.{
  ℕ, zero, suc, ◌+◌, ◌≤◌, ◌<◌, Bool, true, false, not, List, [], ◌∷◌, ◌≡◌, refl, length, arith,
  Bytes, is_empty, if◌then◌else◌, Bool-cases, ◌⊎◌, inl, inr,
}
use kukicha.Token.{TokenType}
use kukicha.Lexer.Cursor.{
  Cursor, is_at_end, peek, advance, take_rune, skip_while, skip_run, matches,
}
use kukicha.Lexer.State.{Lexer, Message, error, add_token_with_lexeme}
use kukicha.Lexer.Nesting.{IsTame, IsTame-refl, IsTame-trans, IsPlain, add_token_with_lexeme-IsTame}
use kukicha.Lexer.Scan.{weight, quote_weight}

-- At `m` no more runes and no heavier quotes are left than at `k`.
pub record Reads (k m : Cursor) : Type 0 where
  pub shorter : length m.rest ≤ length k.rest
  pub lighter : weight m.rest ≤ weight k.rest

pub Reads-refl : (k : Cursor) → Reads k k
Reads-refl k = omega arith

pub Reads-trans : {k m n : Cursor} → Reads k m → Reads m n → Reads k n
Reads-trans p q = omega arith

-- Fewer runes are left.
pub record ReadsOn (k m : Cursor) : Type 0 where
  pub strictly : length m.rest < length k.rest
  pub lightly : weight m.rest ≤ weight k.rest

pub advance-ReadsOn : (k : Cursor) → is_at_end k ≡ false → ReadsOn k (advance k)
unfolding advance
advance-ReadsOn k h = ground arith

pub advance-Reads : (k : Cursor) → Reads k (advance k)
unfolding advance
advance-Reads k = ground arith

skip_run-Reads : (p : ℕ → Bool) (cs : List ℕ) (k : Cursor) → k.rest ≡ cs → Reads k (skip_run p cs k)
unfolding skip_run
skip_run-Reads p [] k e = Reads-refl k
skip_run-Reads p (c ∷ cs) k e = elim (Bool-cases (p c)) [
  | inl h ↦ rw h (ground (arith, skip_run-Reads p cs (take_rune c cs k) refl))
  | inr h ↦ rw h (Reads-refl k)
]

pub skip_while-Reads : (p : ℕ → Bool) (k : Cursor) → Reads k (skip_while p k)
unfolding skip_while
skip_while-Reads p k = skip_run-Reads p k.rest k refl

-- At `m` no more of the source is left than at `l`, and no block was opened or closed.
pub record Scans (l m : Lexer) : Type 0 where
  pub tame : IsTame l m
  pub reads : Reads l.cursor m.cursor

pub Scans-refl : (l : Lexer) → Scans l l
Scans-refl l = record { tame = IsTame-refl l; reads = Reads-refl l.cursor }

pub Scans-trans : {l m n : Lexer} → Scans l m → Scans m n → Scans l n
Scans-trans p q = record { tame = IsTame-trans p.tame q.tame; reads = Reads-trans p.reads q.reads }

pub error-Scans : (m : Message) (l : Lexer) → Scans l (error m l)
unfolding error
error-Scans m l = ground arith

pub cursor-Scans : (l : Lexer) {k : Cursor} → Reads l.cursor k → Scans l (record l { cursor = k })
cursor-Scans l r = ground arith

pub add_token_with_lexeme-Scans :
    (t : TokenType) (s : Bytes) (l : Lexer) → IsPlain t → Scans l (add_token_with_lexeme t s l)
unfolding add_token_with_lexeme
add_token_with_lexeme-Scans t s l p = record {
  tame = add_token_with_lexeme-IsTame t s l p;
  reads = Reads-refl l.cursor;
}
