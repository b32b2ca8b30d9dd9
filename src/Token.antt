-- ===== src/Token.antt =====
-- internal/lexer/token.go: the token types and tokens.
pub mod Names
pub mod Keywords
use kukicha.Prelude.{
  ℕ, String, Bool, Option, none, some, List, [], ◌∷◌, Bytes, codes, ◌==◌, ◌≡◌, true, false, arith,
  same, is_some, if◌then◌else◌,
}

-- The constants TOKEN_…, in the order of the `iota` block.
pub data TokenType : Type 0 where
  token_identifier token_integer token_float token_string token_string_head token_string_mid :
      TokenType
  token_string_tail token_string_raw token_true token_false token_petiole token_import token_type :
      TokenType
  token_interface token_var token_func token_return token_if token_else token_for token_continue :
      TokenType
  token_break token_in token_from token_to token_through token_switch token_case token_default :
      TokenType
  token_go token_defer token_make token_list token_map token_channel token_send token_receive :
      TokenType
  token_close token_panic token_recover token_error token_empty token_reference token_dereference :
      TokenType
  token_on token_discard token_of token_as token_skill token_select token_enum token_then :
      TokenType
  token_is token_many token_const token_walrus token_assign token_equals token_isnt : TokenType
  token_double_equals token_not_equals token_lt token_gt token_lte token_gte token_plus : TokenType
  token_plus_plus token_minus token_minus_minus token_star token_slash token_percent token_and :
      TokenType
  token_and_and token_bit_and token_bit_and_assign token_or token_or_or token_bit_or token_onerr :
      TokenType
  token_explain token_not token_bang token_pipe token_fat_arrow token_arrow_left token_lparen :
      TokenType
  token_rparen token_lbracket token_rbracket token_lbrace token_rbrace token_comma token_dot :
      TokenType
  token_colon token_newline token_indent token_dedent token_eof token_comment token_directive :
      TokenType
  token_semicolon : TokenType

-- The number that `iota` gives the constant; `==` on token types compares these.
unfoldable pub type_index : TokenType → ℕ
type_index token_identifier = 0
type_index token_integer = 1
type_index token_float = 2
type_index token_string = 3
type_index token_string_head = 4
type_index token_string_mid = 5
type_index token_string_tail = 6
type_index token_string_raw = 7
type_index token_true = 8
type_index token_false = 9
type_index token_petiole = 10
type_index token_import = 11
type_index token_type = 12
type_index token_interface = 13
type_index token_var = 14
type_index token_func = 15
type_index token_return = 16
type_index token_if = 17
type_index token_else = 18
type_index token_for = 19
type_index token_continue = 20
type_index token_break = 21
type_index token_in = 22
type_index token_from = 23
type_index token_to = 24
type_index token_through = 25
type_index token_switch = 26
type_index token_case = 27
type_index token_default = 28
type_index token_go = 29
type_index token_defer = 30
type_index token_make = 31
type_index token_list = 32
type_index token_map = 33
type_index token_channel = 34
type_index token_send = 35
type_index token_receive = 36
type_index token_close = 37
type_index token_panic = 38
type_index token_recover = 39
type_index token_error = 40
type_index token_empty = 41
type_index token_reference = 42
type_index token_dereference = 43
type_index token_on = 44
type_index token_discard = 45
type_index token_of = 46
type_index token_as = 47
type_index token_skill = 48
type_index token_select = 49
type_index token_enum = 50
type_index token_then = 51
type_index token_is = 52
type_index token_many = 53
type_index token_const = 54
type_index token_walrus = 55
type_index token_assign = 56
type_index token_equals = 57
type_index token_isnt = 58
type_index token_double_equals = 59
type_index token_not_equals = 60
type_index token_lt = 61
type_index token_gt = 62
type_index token_lte = 63
type_index token_gte = 64
type_index token_plus = 65
type_index token_plus_plus = 66
type_index token_minus = 67
type_index token_minus_minus = 68
type_index token_star = 69
type_index token_slash = 70
type_index token_percent = 71
type_index token_and = 72
type_index token_and_and = 73
type_index token_bit_and = 74
type_index token_bit_and_assign = 75
type_index token_or = 76
type_index token_or_or = 77
type_index token_bit_or = 78
type_index token_onerr = 79
type_index token_explain = 80
type_index token_not = 81
type_index token_bang = 82
type_index token_pipe = 83
type_index token_fat_arrow = 84
type_index token_arrow_left = 85
type_index token_lparen = 86
type_index token_rparen = 87
type_index token_lbracket = 88
type_index token_rbracket = 89
type_index token_lbrace = 90
type_index token_rbrace = 91
type_index token_comma = 92
type_index token_dot = 93
type_index token_colon = 94
type_index token_newline = 95
type_index token_indent = 96
type_index token_dedent = 97
type_index token_eof = 98
type_index token_comment = 99
type_index token_directive = 100
type_index token_semicolon = 101

abbrev pub is_type : TokenType → TokenType → Bool
is_type t u = type_index t == type_index u

pub record Token : Type 0 where
  pub type : TokenType
  pub lexeme : Bytes
  pub line : ℕ
  pub column : ℕ
  pub file : String

-- A token of type `t` is of no other type.
pub is_type-exclusive :
    (k t u : TokenType) → is_type k t ≡ true → is_type t u ≡ false → is_type k u ≡ false
is_type-exclusive k t u p q = ground arith
