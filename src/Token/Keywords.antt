-- ===== src/Token/Keywords.antt =====
-- internal/lexer/token.go: the table of keywords and the look-up.
pub mod Words
use mathlib.Core.Option.{get_or}
use kukicha.Prelude.{
  Bool, Option, none, some, List, [], ◌∷◌, Bytes, codes, same, is_some, if◌then◌else◌,
}
use kukicha.Token.{
  TokenType, token_identifier, token_true, token_false, token_petiole, token_import, token_type,
  token_interface, token_var, token_func, token_return, token_if, token_else, token_for,
  token_continue, token_break, token_in, token_from, token_to, token_through, token_switch,
  token_case, token_default, token_go, token_defer, token_make, token_list, token_map,
  token_channel, token_send, token_receive, token_close, token_panic, token_recover, token_error,
  token_empty, token_reference, token_dereference, token_on, token_discard, token_of, token_as,
  token_skill, token_select, token_enum, token_then, token_is, token_many, token_const,
  token_equals, token_isnt, token_and, token_or, token_onerr, token_explain, token_not,
}

-- The map literal `keywords`, in its order.
abbrev pub keywords : List (Bytes × TokenType)
keywords =
    (codes "petiole", token_petiole)
    ∷ (codes "package", token_petiole)
    ∷ (codes "import", token_import)
    ∷ (codes "type", token_type)
    ∷ (codes "interface", token_interface)
    ∷ (codes "variable", token_var)
    ∷ (codes "function", token_func)
    ∷ (codes "var", token_var)
    ∷ (codes "func", token_func)
    ∷ (codes "return", token_return)
    ∷ (codes "if", token_if)
    ∷ (codes "else", token_else)
    ∷ (codes "for", token_for)
    ∷ (codes "continue", token_continue)
    ∷ (codes "break", token_break)
    ∷ (codes "in", token_in)
    ∷ (codes "from", token_from)
    ∷ (codes "to", token_to)
    ∷ (codes "through", token_through)
    ∷ (codes "switch", token_switch)
    ∷ (codes "when", token_case)
    ∷ (codes "default", token_default)
    ∷ (codes "otherwise", token_default)
    ∷ (codes "go", token_go)
    ∷ (codes "defer", token_defer)
    ∷ (codes "make", token_make)
    ∷ (codes "list", token_list)
    ∷ (codes "map", token_map)
    ∷ (codes "channel", token_channel)
    ∷ (codes "send", token_send)
    ∷ (codes "receive", token_receive)
    ∷ (codes "close", token_close)
    ∷ (codes "panic", token_panic)
    ∷ (codes "recover", token_recover)
    ∷ (codes "error", token_error)
    ∷ (codes "empty", token_empty)
    ∷ (codes "nil", token_empty)
    ∷ (codes "reference", token_reference)
    ∷ (codes "dereference", token_dereference)
    ∷ (codes "on", token_on)
    ∷ (codes "discard", token_discard)
    ∷ (codes "of", token_of)
    ∷ (codes "as", token_as)
    ∷ (codes "many", token_many)
    ∷ (codes "const", token_const)
    ∷ (codes "constant", token_const)
    ∷ (codes "true", token_true)
    ∷ (codes "false", token_false)
    ∷ (codes "equals", token_equals)
    ∷ (codes "isnt", token_isnt)
    ∷ (codes "and", token_and)
    ∷ (codes "or", token_or)
    ∷ (codes "onerr", token_onerr)
    ∷ (codes "explain", token_explain)
    ∷ (codes "not", token_not)
    ∷ (codes "skill", token_skill)
    ∷ (codes "select", token_select)
    ∷ (codes "enum", token_enum)
    ∷ (codes "then", token_then)
    ∷ (codes "is", token_is)
    ∷ []

unfoldable pub find_keyword : List (Bytes × TokenType) → Bytes → Option TokenType
find_keyword [] w = none
find_keyword ((k, t) ∷ ks) w = if same k w then some t else find_keyword ks w

-- `LookupKeyword`
unfoldable pub lookup_keyword : Bytes → TokenType
unfolding find_keyword
lookup_keyword w = get_or (find_keyword keywords w) token_identifier

-- `IsKeyword`
unfoldable pub is_keyword : Bytes → Bool
unfolding find_keyword
is_keyword w = is_some (find_keyword keywords w)
