-- ===== src/Token/Names/Distinct.antt =====
-- The names that `TokenType.String` prints tell all token types apart.
use text.Mathlib.Text.{◌==◌ as str_eq}
use kukicha.Prelude.{
  String, List, [], ◌∷◌, Option, none, some, ◌≡◌, refl, sym, ap, ◌∙◌, ◌↔◌, some_injective,
  if◌then◌else◌,
}
use kukicha.Token.{
  TokenType, token_identifier, token_integer, token_float, token_string, token_string_head,
  token_string_mid, token_string_tail, token_string_raw, token_true, token_false, token_petiole,
  token_import, token_type, token_interface, token_var, token_func, token_return, token_if,
  token_else, token_for, token_continue, token_break, token_in, token_from, token_to, token_through,
  token_switch, token_case, token_default, token_go, token_defer, token_make, token_list, token_map,
  token_channel, token_send, token_receive, token_close, token_panic, token_recover, token_error,
  token_empty, token_reference, token_dereference, token_on, token_discard, token_of, token_as,
  token_skill, token_select, token_enum, token_then, token_is, token_many, token_const,
  token_walrus, token_assign, token_equals, token_isnt, token_double_equals, token_not_equals,
  token_lt, token_gt, token_lte, token_gte, token_plus, token_plus_plus, token_minus,
  token_minus_minus, token_star, token_slash, token_percent, token_and, token_and_and,
  token_bit_and, token_bit_and_assign, token_or, token_or_or, token_bit_or, token_onerr,
  token_explain, token_not, token_bang, token_pipe, token_fat_arrow, token_arrow_left, token_lparen,
  token_rparen, token_lbracket, token_rbracket, token_lbrace, token_rbrace, token_comma, token_dot,
  token_colon, token_newline, token_indent, token_dedent, token_eof, token_comment, token_directive,
  token_semicolon,
}
use kukicha.Token.Names.{type_name}

abbrev all_types : List TokenType
all_types =
    token_identifier ∷ token_integer ∷ token_float ∷ token_string ∷ token_string_head
    ∷ token_string_mid ∷ token_string_tail ∷ token_string_raw ∷ token_true ∷ token_false
    ∷ token_petiole ∷ token_import ∷ token_type ∷ token_interface ∷ token_var ∷ token_func
    ∷ token_return ∷ token_if ∷ token_else ∷ token_for ∷ token_continue ∷ token_break ∷ token_in
    ∷ token_from ∷ token_to ∷ token_through ∷ token_switch ∷ token_case ∷ token_default ∷ token_go
    ∷ token_defer ∷ token_make ∷ token_list ∷ token_map ∷ token_channel ∷ token_send ∷ token_receive
    ∷ token_close ∷ token_panic ∷ token_recover ∷ token_error ∷ token_empty ∷ token_reference
    ∷ token_dereference ∷ token_on ∷ token_discard ∷ token_of ∷ token_as ∷ token_skill
    ∷ token_select ∷ token_enum ∷ token_then ∷ token_is ∷ token_many ∷ token_const ∷ token_walrus
    ∷ token_assign ∷ token_equals ∷ token_isnt ∷ token_double_equals ∷ token_not_equals ∷ token_lt
    ∷ token_gt ∷ token_lte ∷ token_gte ∷ token_plus ∷ token_plus_plus ∷ token_minus
    ∷ token_minus_minus ∷ token_star ∷ token_slash ∷ token_percent ∷ token_and ∷ token_and_and
    ∷ token_bit_and ∷ token_bit_and_assign ∷ token_or ∷ token_or_or ∷ token_bit_or ∷ token_onerr
    ∷ token_explain ∷ token_not ∷ token_bang ∷ token_pipe ∷ token_fat_arrow ∷ token_arrow_left
    ∷ token_lparen ∷ token_rparen ∷ token_lbracket ∷ token_rbracket ∷ token_lbrace ∷ token_rbrace
    ∷ token_comma ∷ token_dot ∷ token_colon ∷ token_newline ∷ token_indent ∷ token_dedent
    ∷ token_eof ∷ token_comment ∷ token_directive ∷ token_semicolon ∷ []

-- The first type of the list that has the name.
type_named : String → List TokenType → Option TokenType
type_named name [] = none
type_named name (t ∷ ts) =
    let rest = type_named name ts in if str_eq (type_name t) name then some t else rest

type_named-type_name : (t : TokenType) → type_named (type_name t) all_types ≡ some t
unfolding type_named type_name
type_named-type_name token_identifier = refl
type_named-type_name token_integer = refl
type_named-type_name token_float = refl
type_named-type_name token_string = refl
type_named-type_name token_string_head = refl
type_named-type_name token_string_mid = refl
type_named-type_name token_string_tail = refl
type_named-type_name token_string_raw = refl
type_named-type_name token_true = refl
type_named-type_name token_false = refl
type_named-type_name token_petiole = refl
type_named-type_name token_import = refl
type_named-type_name token_type = refl
type_named-type_name token_interface = refl
type_named-type_name token_var = refl
type_named-type_name token_func = refl
type_named-type_name token_return = refl
type_named-type_name token_if = refl
type_named-type_name token_else = refl
type_named-type_name token_for = refl
type_named-type_name token_continue = refl
type_named-type_name token_break = refl
type_named-type_name token_in = refl
type_named-type_name token_from = refl
type_named-type_name token_to = refl
type_named-type_name token_through = refl
type_named-type_name token_switch = refl
type_named-type_name token_case = refl
type_named-type_name token_default = refl
type_named-type_name token_go = refl
type_named-type_name token_defer = refl
type_named-type_name token_make = refl
type_named-type_name token_list = refl
type_named-type_name token_map = refl
type_named-type_name token_channel = refl
type_named-type_name token_send = refl
type_named-type_name token_receive = refl
type_named-type_name token_close = refl
type_named-type_name token_panic = refl
type_named-type_name token_recover = refl
type_named-type_name token_error = refl
type_named-type_name token_empty = refl
type_named-type_name token_reference = refl
type_named-type_name token_dereference = refl
type_named-type_name token_on = refl
type_named-type_name token_discard = refl
type_named-type_name token_of = refl
type_named-type_name token_as = refl
type_named-type_name token_skill = refl
type_named-type_name token_select = refl
type_named-type_name token_enum = refl
type_named-type_name token_then = refl
type_named-type_name token_is = refl
type_named-type_name token_many = refl
type_named-type_name token_const = refl
type_named-type_name token_walrus = refl
type_named-type_name token_assign = refl
type_named-type_name token_equals = refl
type_named-type_name token_isnt = refl
type_named-type_name token_double_equals = refl
type_named-type_name token_not_equals = refl
type_named-type_name token_lt = refl
type_named-type_name token_gt = refl
type_named-type_name token_lte = refl
type_named-type_name token_gte = refl
type_named-type_name token_plus = refl
type_named-type_name token_plus_plus = refl
type_named-type_name token_minus = refl
type_named-type_name token_minus_minus = refl
type_named-type_name token_star = refl
type_named-type_name token_slash = refl
type_named-type_name token_percent = refl
type_named-type_name token_and = refl
type_named-type_name token_and_and = refl
type_named-type_name token_bit_and = refl
type_named-type_name token_bit_and_assign = refl
type_named-type_name token_or = refl
type_named-type_name token_or_or = refl
type_named-type_name token_bit_or = refl
type_named-type_name token_onerr = refl
type_named-type_name token_explain = refl
type_named-type_name token_not = refl
type_named-type_name token_bang = refl
type_named-type_name token_pipe = refl
type_named-type_name token_fat_arrow = refl
type_named-type_name token_arrow_left = refl
type_named-type_name token_lparen = refl
type_named-type_name token_rparen = refl
type_named-type_name token_lbracket = refl
type_named-type_name token_rbracket = refl
type_named-type_name token_lbrace = refl
type_named-type_name token_rbrace = refl
type_named-type_name token_comma = refl
type_named-type_name token_dot = refl
type_named-type_name token_colon = refl
type_named-type_name token_newline = refl
type_named-type_name token_indent = refl
type_named-type_name token_dedent = refl
type_named-type_name token_eof = refl
type_named-type_name token_comment = refl
type_named-type_name token_directive = refl
type_named-type_name token_semicolon = refl

-- Two token types with one name are the same.
pub type_name_injective : (t u : TokenType) → type_name t ≡ type_name u → t ≡ u
type_name_injective t u e =
    some_injective
      (sym (type_named-type_name t) ∙ ap (λ n. type_named n all_types) e ∙ type_named-type_name u)

-- The name "UNKNOWN" is that of TOKEN_ISNT, which has no case of its own, and of no other type.
pub type_name_unknown : (t : TokenType) → (type_name t ≡ "UNKNOWN") ↔ (t ≡ token_isnt)
type_name_unknown t = (
  (λ e. type_name_injective t token_isnt (e ∙ (unfold type_name in refl))),
  (λ e. ap type_name e ∙ (unfold type_name in refl)),
)
