-- ===== src/Parser/Directives.antt =====
-- internal/parser/parser.go: `parseDirective` and `parseDirectiveArgs`.
use mathlib.Core.List.{reverse}
use kukicha.Prelude.{
  ℕ, zero, suc, ◌-◌, Bool, ◌&&◌, ◌||◌, List, [], ◌∷◌, ◌++◌, Bytes, codes, ◌==◌, leb, has_prefix,
  drop, length, if◌then◌else◌,
}
use kukicha.Token.{Token}
use kukicha.Ast.Types.{Directive}

-- The white space of `unicode.IsSpace`, in one byte, two bytes and three bytes.
abbrev space_one : ℕ → Bool
space_one a = (leb 9 a && leb a 13) || a == 32

abbrev space_two : ℕ → ℕ → Bool
space_two a b = a == 194 && (b == 133 || b == 160)

abbrev space_three : ℕ → ℕ → ℕ → Bool
space_three a b c =
    (a == 225 && b == 154 && c == 128)
    || (a == 226 && b == 128 && (leb c 138 && leb 128 c || c == 168 || c == 169 || c == 175))
    || (a == 226 && b == 129 && c == 159)
    || (a == 227 && b == 128 && c == 128)

-- The bytes of the space at the front, or at the back of the reversed text; 0 if there is none.
space_front : Bytes → ℕ
space_front [] = 0
space_front (a ∷ []) = if space_one a then 1 else 0
space_front (a ∷ b ∷ []) = if space_one a then 1 else if space_two a b then 2 else 0
space_front (a ∷ b ∷ c ∷ s) =
    if space_one a then 1 else if space_two a b then 2 else if space_three a b c then 3 else 0

space_back : Bytes → ℕ
space_back [] = 0
space_back (a ∷ []) = if space_one a then 1 else 0
space_back (a ∷ b ∷ []) = if space_one a then 1 else if space_two b a then 2 else 0
space_back (a ∷ b ∷ c ∷ s) =
    if space_one a then 1 else if space_two b a then 2 else if space_three c b a then 3 else 0

-- Drops spaces, of whose present one `k` bytes are still to come.
trim_run : (Bytes → ℕ) → ℕ → Bytes → Bytes
trim_run width k [] = []
trim_run width (suc k) (c ∷ cs) = trim_run width k cs
trim_run width zero (c ∷ cs) =
    let next = trim_run width (width (c ∷ cs) - 1) cs in
    if width (c ∷ cs) == 0 then c ∷ cs else next

-- `strings.TrimSpace`
unfoldable pub trim_space : Bytes → Bytes
unfolding trim_run space_front space_back
trim_space s = reverse (trim_run space_back 0 (reverse (trim_run space_front 0 s)))

-- `strings.TrimPrefix s p`
unfoldable pub trim_prefix : Bytes → Bytes → Bytes
unfolding has_prefix
trim_prefix s p = if has_prefix s p then drop (length p) s else s

-- Where the loop of `parseDirectiveArgs` stands.
pub data Mode : Type 0 where
  between : Mode
  quoted : Bytes → Mode
  plain : Bytes → Mode

args_step : ℕ → Mode → Mode
args_step c between =
    if c == b' ' || c == 9 then between else if c == b'"' then quoted [] else plain (c ∷ [])
args_step c (quoted part) = if c == b'"' then between else quoted (part ++ c ∷ [])
args_step c (plain part) = if c == b' ' then between else plain (part ++ c ∷ [])

-- The argument that ends with this byte, if one does.
args_ended : ℕ → Mode → List Bytes
args_ended c between = []
args_ended c (quoted part) = if c == b'"' then part ∷ [] else []
args_ended c (plain part) = if c == b' ' then part ∷ [] else []

args_run : Mode → Bytes → List Bytes
unfolding args_step args_ended
args_run between [] = []
args_run (quoted part) [] = part ∷ []
args_run (plain part) [] = part ∷ []
args_run mode (c ∷ cs) = args_ended c mode ++ args_run (args_step c mode) cs

-- `parseDirectiveArgs`
unfoldable pub parse_directive_args : Bytes → List Bytes
unfolding args_run
parse_directive_args s = args_run between s

-- `strings.Cut s " "`: the text before the first blank and that behind it.
cut_run : Bytes → Bytes → Bytes × Bytes
cut_run name [] = (name, [])
cut_run name (c ∷ cs) =
    let next = cut_run (name ++ c ∷ []) cs in if c == b' ' then (name, cs) else next

-- `parseDirective`
unfoldable pub parse_directive : Token → Directive
unfolding cut_run trim_space trim_prefix parse_directive_args
parse_directive t =
    let content = trim_space (trim_prefix t.lexeme (codes "# kuki:")) in
    let parts = cut_run [] content in
    record { token = t; name = parts.0; args = parse_directive_args (trim_space parts.1) }
