-- ===== src/Lexer/Strings/Dedent.antt =====
-- internal/lexer/lexer.go: `dedentTripleQuote`, and the escaping of `scanStringFromContent`.
-- The source's runes are valid, so a Go string of them and the list of its runes are one text.
pub mod Size
pub mod Indented
use kukicha.Prelude.{
  ℕ, ◌+◌, ◌-◌, Bool, true, false, not, ◌&&◌, ◌||◌, List, [], ◌∷◌, ◌++◌, Option, none, some, ltb,
  leb, ◌==◌, if◌then◌else◌, all,
}
use mathlib.Core.List.{reverse, map}

-- The line break behind the opening quotes.
strip_leading : List ℕ → List ℕ
strip_leading [] = []
strip_leading (c ∷ []) = if c == 10 then [] else c ∷ []
strip_leading (c ∷ d ∷ cs) =
    if c == 10 then d ∷ cs else if c == 13 && d == 10 then cs else c ∷ d ∷ cs

-- On the text read from its end: the line break before the closing quotes.
strip_reversed : List ℕ → List ℕ
strip_reversed [] = []
strip_reversed (c ∷ []) = if c == 10 then [] else c ∷ []
strip_reversed (c ∷ d ∷ cs) = if c == 10 then (if d == 13 then cs else d ∷ cs) else c ∷ d ∷ cs

strip_trailing : List ℕ → List ℕ
strip_trailing raw = reverse (strip_reversed (reverse raw))

unfoldable pub onto_first : ℕ → List (List ℕ) → List (List ℕ)
onto_first c [] = (c ∷ []) ∷ []
onto_first c (l ∷ ls) = (c ∷ l) ∷ ls

-- `strings.Split(raw, "\n")`
unfoldable pub split_lines : List ℕ → List (List ℕ)
unfolding onto_first
split_lines [] = [] ∷ []
split_lines (c ∷ cs) = let rest = split_lines cs in if c == 10 then [] ∷ rest else onto_first c rest

-- The lines joined by newlines.
unfoldable pub join_lines : List (List ℕ) → List ℕ
join_lines [] = []
join_lines (l ∷ []) = l
join_lines (l ∷ m ∷ ls) = l ++ 10 ∷ join_lines (m ∷ ls)

-- `strings.TrimRight(line, " \t\r") == ""`
unfoldable pub is_blank_line : List ℕ → Bool
is_blank_line l = all (λ c. c == b' ' || c == 9 || c == 13) l

-- The width of the leading blanks; a tab counts for four.
unfoldable pub line_indent : List ℕ → ℕ
line_indent [] = 0
line_indent (c ∷ cs) =
    let more = line_indent cs in if c == b' ' then 1 + more else if c == 9 then 4 + more else 0

abbrev pub smaller : ℕ → Option ℕ → Option ℕ
smaller n none = some n
smaller n (some m) = some (if ltb n m then n else m)

-- `minIndent`; `none` is the program's -1.
unfoldable pub min_indent : List (List ℕ) → Option ℕ
unfolding is_blank_line line_indent
min_indent [] = none
min_indent (l ∷ ls) =
    let more = min_indent ls in if is_blank_line l then more else smaller (line_indent l) more

-- The inner loop: up to `min` columns of blanks are cut, `stripped` of them so far.
strip_line : ℕ → ℕ → List ℕ → List ℕ
strip_line stripped min [] = []
strip_line stripped min (c ∷ cs) =
    let width = if c == b' ' then 1 else if ltb min (stripped + 4) then min - stripped else 4 in
    let more = strip_line (stripped + width) min cs in
    if ltb stripped min && (c == b' ' || c == 9) then more else c ∷ cs

strip_all : Option ℕ → List ℕ → List ℕ
strip_all none raw = raw
strip_all (some n) raw = if n == 0 then raw else join_lines (map (strip_line 0 n) (split_lines raw))

-- `dedentTripleQuote`
unfoldable pub dedent_triple_quote : List ℕ → List ℕ
unfolding strip_leading strip_trailing strip_reversed split_lines min_indent strip_line strip_all
    join_lines
dedent_triple_quote raw =
    let text = strip_trailing (strip_leading raw) in strip_all (min_indent (split_lines text)) text

inject_rune : Bool → ℕ → List ℕ
inject_rune true c = c ∷ []
inject_rune false c =
    if c == b'"'
    then b'\\' ∷ b'"' ∷ []
    else if c == 10
    then b'\\' ∷ b'n' ∷ []
    else if c == 13
    then []
    else c ∷ []

-- The loop of `scanStringFromContent`; `escaped` holds behind the backslash of a kept escape.
unfoldable pub inject : Bool → List ℕ → List ℕ
unfolding inject_rune
inject escaped [] = []
inject escaped (c ∷ cs) = inject_rune escaped c ++ inject (not escaped && c == b'\\') cs
