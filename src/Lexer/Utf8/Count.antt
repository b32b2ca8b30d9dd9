-- ===== src/Lexer/Utf8/Count.antt =====
-- Counting the runes of an encoded text gives back the number of runes.
use kukicha.Prelude.{ℕ, ◌<◌, List, [], ◌∷◌, ◌≡◌, refl, arith, Bytes, length}
use kukicha.Lexer.Utf8.{encode, encode_rune, rune_count, tail_size}

ascii-count : (r : ℕ) (bs : Bytes) → r < 128 → tail_size r bs ≡ 0
unfolding tail_size
ascii-count r [] h = refl
ascii-count r (c ∷ []) h = ground arith
ascii-count r (c ∷ d ∷ []) h = ground arith
ascii-count r (c ∷ d ∷ e ∷ bs) h = ground arith

abbrev pub IsAscii : List ℕ → Type 0
IsAscii [] = Unit
IsAscii (r ∷ rs) = (r < 128) × IsAscii rs

pub rune_count-encode : (rs : List ℕ) → IsAscii rs → rune_count (encode rs) ≡ length rs
unfolding rune_count encode
rune_count-encode [] h = refl
rune_count-encode (r ∷ rs) (h, t) =
    ground (arith, ascii-count r (encode rs) h, rune_count-encode rs t)

-- The encoding of an ASCII text is the text.
pub encode-ascii : (rs : List ℕ) → IsAscii rs → encode rs ≡ rs
unfolding encode encode_rune
encode-ascii [] h = refl
encode-ascii (r ∷ rs) (h, t) = ground (arith, h, encode-ascii rs t)
