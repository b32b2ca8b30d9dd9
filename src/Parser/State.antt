-- ===== src/Parser/State.antt =====
-- internal/parser/parser.go: the fields of `Parser`, and steps that may panic or run out of fuel.
use kukicha.Prelude.{Bool, true, List, [], ◌∷◌, ◌++◌, Bytes}
use kukicha.Token.{Token, token_eof, token_identifier}
use kukicha.Lexer.State.{LexError}
use kukicha.Ast.Types.{Directive}

-- An error of the lexer, or one that prints the place of the token and then the message. The text
-- of an error of `strconv` is not kept.
pub data ParserError : Type 0 where
  scan_error : LexError → ParserError
  parse_error : Token → Bytes → ParserError
  integer_error : Token → ParserError
  float_error : Token → ParserError

-- The tokens are cut at `pos`, and those before it are reversed.
pub record Parser : Type 0 where
  pub before : List Token
  pub rest : List Token
  pub errors : List ParserError
  pub pending_directives : List Directive
  pub allow_inline_onerr : Bool

-- `NewFromTokens`
abbrev pub new_from_tokens : List Token → Parser
new_from_tokens ts = record {
  before = [];
  rest = ts;
  errors = [];
  pending_directives = [];
  allow_inline_onerr = true;
}

-- `lexer.Token{Type: lexer.TOKEN_EOF}`, and `lexer.Token{}`.
abbrev pub eof_token : Token
eof_token = record { type = token_eof; lexeme = []; line = 0; column = 0; file = "" }

abbrev pub zero_token : Token
zero_token = record { type = token_identifier; lexeme = []; line = 0; column = 0; file = "" }

pub data Run (A : Type 0) : Type 0 where
  done : A → Parser → Run A
  panicked : Run A
  out_of_fuel : Run A

abbrev pub M : Type 0 → Type 0
M A = Parser → Run A

-- What follows a run.
abbrev pub and_then : {A B : Type 0} → Run A → (A → M B) → Run B
and_then (done a q) f = f a q
and_then panicked f = panicked
and_then out_of_fuel f = out_of_fuel

infixl 5 ◌>>=◌ ◌>>◌
abbrev pub ◌>>=◌ : {A B : Type 0} → M A → (A → M B) → M B
◌>>=◌ m f p = and_then (m p) f

abbrev pub ◌>>◌ : {A B : Type 0} → M A → M B → M B
m >> k = m >>= λ _. k

abbrev pub pure : {A : Type 0} → A → M A
pure a p = done a p

abbrev pub panic : {A : Type 0} → M A
panic p = panicked

abbrev pub no_fuel : {A : Type 0} → M A
no_fuel p = out_of_fuel

abbrev pub keep_error : ParserError → M (Unit {0})
keep_error e p = done tt (record p { errors = p.errors ++ e ∷ [] })

-- `p.error`, which every call of the program uses for the record that it makes.
unfoldable pub add_error : Token → Bytes → M (Unit {0})
add_error t message = keep_error (ParserError.parse_error t message)
