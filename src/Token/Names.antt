-- ===== src/Token/Names.antt =====
-- internal/lexer/token.go: `TokenType.String`.
pub mod Distinct
use kukicha.Prelude.{String}
use kukicha.Token.{
  TokenType, token_identifier, token_integer, token_float, token_string, token_string_head,
  token_string_mid, token_string_tail, token_string_raw, token_true, token_false, token_petiole,
  token_import, token_type, token_interface, token_var, token_func, token_return, token_if,
  token_else, token_for, token_continue, token_break, token_in, token_from, token_to, token_through,
  token_switch, token_case, token_default, token_go, token_defer, token_make, token_list, token_map,
  token_channel, token_send, token_receive, token_close, token_panic, token_recover, token_error,
  token_empty, token_reference, token_dereference, token_on, token_discard, token_of, token_as,
  token_skill, token_select, token_enum, token_then, token_is, token_many, token_const,
  token_walrus, token_assign, token_equals, token_double_equals, token_not_equals, token_lt,
  token_gt, token_lte, token_gte, token_plus, token_plus_plus, token_minus, token_minus_minus,
  token_star, token_slash, token_percent, token_and, token_and_and, token_bit_and,
  token_bit_and_assign, token_or, token_or_or, token_bit_or, token_onerr, token_explain, token_not,
  token_bang, token_pipe, token_fat_arrow, token_arrow_left, token_lparen, token_rparen,
  token_lbracket, token_rbracket, token_lbrace, token_rbrace, token_comma, token_dot, token_colon,
  token_newline, token_indent, token_dedent, token_eof, token_comment, token_directive,
  token_semicolon,
}

-- `TokenType.String`: a constant with no case of its own is "UNKNOWN".
unfoldable pub type_name : TokenType → String
type_name token_identifier = "IDENTIFIER"
type_name token_integer = "INTEGER"
type_name token_float = "FLOAT"
type_name token_string = "STRING"
type_name token_string_head = "STRING_HEAD"
type_name token_string_mid = "STRING_MID"
type_name token_string_tail = "STRING_TAIL"
type_name token_string_raw = "STRING_RAW"
type_name token_true = "TRUE"
type_name token_false = "FALSE"
type_name token_petiole = "PETIOLE"
type_name token_import = "IMPORT"
type_name token_type = "TYPE"
type_name token_interface = "INTERFACE"
type_name token_var = "VAR"
type_name token_func = "FUNC"
type_name token_return = "RETURN"
type_name token_if = "IF"
type_name token_else = "ELSE"
type_name token_for = "FOR"
type_name token_continue = "CONTINUE"
type_name token_break = "BREAK"
type_name token_in = "IN"
type_name token_from = "FROM"
type_name token_to = "TO"
type_name token_through = "THROUGH"
type_name token_switch = "SWITCH"
type_name token_case = "CASE"
type_name token_default = "DEFAULT"
type_name token_go = "GO"
type_name token_defer = "DEFER"
type_name token_make = "MAKE"
type_name token_list = "LIST"
type_name token_map = "MAP"
type_name token_channel = "CHANNEL"
type_name token_send = "SEND"
type_name token_receive = "RECEIVE"
type_name token_close = "CLOSE"
type_name token_panic = "PANIC"
type_name token_recover = "RECOVER"
type_name token_error = "ERROR"
type_name token_empty = "EMPTY"
type_name token_reference = "REFERENCE"
type_name token_dereference = "DEREFERENCE"
type_name token_on = "ON"
type_name token_discard = "DISCARD"
type_name token_of = "OF"
type_name token_as = "AS"
type_name token_skill = "SKILL"
type_name token_select = "SELECT"
type_name token_enum = "ENUM"
type_name token_then = "THEN"
type_name token_is = "IS"
type_name token_many = "MANY"
type_name token_const = "CONST"
type_name token_walrus = "WALRUS"
type_name token_assign = "ASSIGN"
type_name token_equals = "EQUALS"
type_name token_double_equals = "DOUBLE_EQUALS"
type_name token_not_equals = "NOT_EQUALS"
type_name token_lt = "LT"
type_name token_gt = "GT"
type_name token_lte = "LTE"
type_name token_gte = "GTE"
type_name token_plus = "PLUS"
type_name token_plus_plus = "PLUS_PLUS"
type_name token_minus = "MINUS"
type_name token_minus_minus = "MINUS_MINUS"
type_name token_star = "STAR"
type_name token_slash = "SLASH"
type_name token_percent = "PERCENT"
type_name token_and = "AND"
type_name token_and_and = "AND_AND"
type_name token_bit_and = "BIT_AND"
type_name token_bit_and_assign = "BIT_AND_ASSIGN"
type_name token_or = "OR"
type_name token_or_or = "OR_OR"
type_name token_bit_or = "BIT_OR"
type_name token_onerr = "ONERR"
type_name token_explain = "EXPLAIN"
type_name token_not = "NOT"
type_name token_bang = "BANG"
type_name token_pipe = "PIPE"
type_name token_fat_arrow = "FAT_ARROW"
type_name token_arrow_left = "ARROW_LEFT"
type_name token_lparen = "LPAREN"
type_name token_rparen = "RPAREN"
type_name token_lbracket = "LBRACKET"
type_name token_rbracket = "RBRACKET"
type_name token_lbrace = "LBRACE"
type_name token_rbrace = "RBRACE"
type_name token_comma = "COMMA"
type_name token_dot = "DOT"
type_name token_colon = "COLON"
type_name token_newline = "NEWLINE"
type_name token_indent = "INDENT"
type_name token_dedent = "DEDENT"
type_name token_eof = "EOF"
type_name token_comment = "COMMENT"
type_name token_directive = "DIRECTIVE"
type_name token_semicolon = "SEMICOLON"
type_name _ = "UNKNOWN"
