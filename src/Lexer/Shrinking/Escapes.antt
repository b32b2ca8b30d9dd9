-- ===== src/Lexer/Shrinking/Escapes.antt =====
-- Every escape of a string literal reads on and opens no block.
use kukicha.Prelude.{ℕ, zero, suc, ◌+◌, ◌-◌, ◌*◌, false, Option, none, some, ◌≡◌, arith, Bytes}
use kukicha.Lexer.Cursor.{Cursor, is_at_end, peek, advance}
use kukicha.Lexer.State.{
  Lexer, on_cursor, incomplete_hex, incomplete_hex_at_end, octal_out_of_range,
}
use kukicha.Lexer.Escapes.{
  octal_digits, escape_sep, escape_hex, escape_octal, escape_of, scan_string_escape, simple_escape,
}
use kukicha.Lexer.Shrinking.{
  Reads, Reads-refl, Reads-trans, ReadsOn, advance-ReadsOn, advance-Reads, Scans, Scans-refl,
  error-Scans, cursor-Scans,
}

octal_digits-Reads : (n oct : ℕ) (k : Cursor) → Reads k (octal_digits n oct k).0
unfolding octal_digits
octal_digits-Reads zero oct k = Reads-refl k
octal_digits-Reads (suc n) oct k =
    ground (arith, advance-Reads k, octal_digits-Reads n (oct * 8 + (peek k - b'0')) (advance k))

twice-Reads : (k : Cursor) → Reads k (advance (advance k))
twice-Reads k = Reads-trans (advance-Reads k) (advance-Reads (advance k))

escape_sep-Scans : (l : Lexer) (v : Bytes) → Scans l (escape_sep l v).0
unfolding escape_sep
escape_sep-Scans l v = ground (arith, Scans-refl l, cursor-Scans l (twice-Reads l.cursor))

escape_hex-Scans : (l : Lexer) (v : Bytes) → Scans l (escape_hex l v).0
unfolding escape_hex
escape_hex-Scans l v = ground (
  arith,
  error-Scans incomplete_hex_at_end l,
  error-Scans incomplete_hex (on_cursor advance l),
  advance-Reads l.cursor,
  advance-Reads (advance l.cursor),
)

escape_octal-Scans : (c : ℕ) (l : Lexer) (v : Bytes) → Scans l (escape_octal c l v).0
unfolding escape_octal
escape_octal-Scans c l v =
    let k = (octal_digits 2 (c - b'0') l.cursor).0 in
    ground (
      arith,
      error-Scans octal_out_of_range (record l { cursor = k }),
      octal_digits-Reads 2 (c - b'0') l.cursor,
    )

escape_of-Scans : (o : Option ℕ) (c : ℕ) (l : Lexer) (v : Bytes) → Scans l (escape_of o c l v).0
unfolding escape_of
escape_of-Scans (some r) c l v = Scans-refl l
escape_of-Scans none c l v =
    ground (arith, escape_sep-Scans l v, escape_hex-Scans l v, escape_octal-Scans c l v)

pub scan_string_escape-Scans : (l : Lexer) (v : Bytes) → Scans l (scan_string_escape l v).0
unfolding scan_string_escape
scan_string_escape-Scans l v =
    let c = peek (advance l.cursor) in
    ground (
      arith,
      advance-Reads l.cursor,
      advance-Reads (advance l.cursor),
      escape_of-Scans (simple_escape c) c (on_cursor (λ k. advance (advance k)) l) v,
    )

-- A backslash is read, whatever stands behind it.
pub scan_string_escape-ReadsOn :
    (l : Lexer) (v : Bytes)
    → is_at_end l.cursor ≡ false
    → ReadsOn l.cursor (scan_string_escape l v).0.cursor
unfolding scan_string_escape
scan_string_escape-ReadsOn l v h =
    let c = peek (advance l.cursor) in
    ground (
      arith,
      advance-ReadsOn l.cursor h,
      advance-Reads (advance l.cursor),
      escape_of-Scans (simple_escape c) c (on_cursor (λ k. advance (advance k)) l) v,
    )
