-- ===== src/Lexer/State.antt =====
-- internal/lexer/lexer.go: the state of `Lexer`, its constructor, tokens and errors.
-- The stacks are kept with their top first. `file` is part of each token and each error.
use kukicha.Prelude.{
  ℕ, ◌-◌, String, Bool, true, false, List, [], ◌∷◌, ◌++◌, Bytes, ltb, ◌==◌, if◌then◌else◌,
}
use kukicha.Token.{
  TokenType, Token, token_if, token_for, token_func, token_switch, token_else, token_select,
  token_go, token_defer, token_newline, token_indent, token_of, token_fat_arrow, token_comment,
  token_directive,
}
use kukicha.Lexer.Utf8.{encode, rune_count}
use kukicha.Lexer.Cursor.{Cursor}

-- `interpState`
pub record InterpState : Type 0 where
  pub interp_depth : ℕ
  pub quote : ℕ

-- The messages given to `error`, with the values that they print.
pub data Message : Type 0 where
  unexpected_character : ℕ → Message
  tabs_not_allowed : Message
  not_multiple_of_four : ℕ → ℕ → Message
  jumped : ℕ → ℕ → Message
  dedent_mismatch : ℕ → List ℕ → Message
  unterminated_string nul_in_string : Message
  incomplete_hex_at_end incomplete_hex octal_out_of_range : Message
  unterminated_raw_string nul_in_raw_string : Message
  no_hex_digits no_octal_digits no_binary_digits : Message

pub record LexError : Type 0 where
  pub error_file : String
  pub error_line : ℕ
  pub error_column : ℕ
  pub message : Message

pub record Layout : Type 0 where
  pub indent_stack : List ℕ
  pub at_line_start : Bool
  pub indentation_handled : Bool
  pub continuation_line : Bool
  pub brace_depth : ℕ
  pub paren_depth : ℕ
  pub in_function_literal : Bool
  pub closure_indent_stack : List ℕ
  pub closure_paren_depth_stack : List ℕ
  pub after_fat_arrow : Bool
  pub pending_closure_block : Bool
  pub block_keyword_seen : Bool
  pub brace_stack : List Bool
  pub brace_block_depth : ℕ
  pub interp_stack : List InterpState

pub record Lexer : Type 0 where
  pub cursor : Cursor
  pub layout : Layout
  pub tokens : List Token
  pub errors : List LexError
  pub file : String

abbrev pub initial_layout : Layout
initial_layout = record {
  indent_stack = 0 ∷ [];
  at_line_start = true;
  indentation_handled = false;
  continuation_line = false;
  brace_depth = 0;
  paren_depth = 0;
  in_function_literal = false;
  closure_indent_stack = [];
  closure_paren_depth_stack = [];
  after_fat_arrow = false;
  pending_closure_block = false;
  block_keyword_seen = false;
  brace_stack = [];
  brace_block_depth = 0;
  interp_stack = [];
}

-- `NewLexer`, on the runes of the source.
abbrev pub new_lexer : List ℕ → String → Lexer
new_lexer source name = record {
  cursor = record { lexeme = []; rest = source; line = 1; column = 1 };
  layout = initial_layout;
  tokens = [];
  errors = [];
  file = name;
}

-- A part of the state changed, the rest kept.
abbrev pub on_cursor : (Cursor → Cursor) → Lexer → Lexer
on_cursor f l = record l { cursor = f l.cursor }

abbrev pub on_layout : (Layout → Layout) → Lexer → Lexer
on_layout f l = record l { layout = f l.layout }

-- `error`
unfoldable pub error : Message → Lexer → Lexer
error m l = record l {
  errors =
      l.errors
      ++ record {
        error_file = l.file;
        error_line = l.cursor.line;
        error_column = l.cursor.column;
        message = m;
      }
        ∷ [];
}

-- `afterFatArrow` once a token of this type is out.
unfoldable pub fat_arrow_after : TokenType → Bool → Bool
fat_arrow_after token_fat_arrow b = b
fat_arrow_after token_comment b = b
fat_arrow_after token_directive b = b
fat_arrow_after _ b = false

-- The switch at the end of `addTokenWithLexeme`: `blockKeywordSeen` once the token is out.
unfoldable pub block_keyword_after : TokenType → Bool → Bool
block_keyword_after token_if b = true
block_keyword_after token_for b = true
block_keyword_after token_func b = true
block_keyword_after token_switch b = true
block_keyword_after token_else b = true
block_keyword_after token_select b = true
block_keyword_after token_go b = true
block_keyword_after token_defer b = true
block_keyword_after token_newline b = false
block_keyword_after token_indent b = false
block_keyword_after token_of b = false
block_keyword_after _ b = b

-- `addTokenWithLexeme`; `max(0, column - n)` is the truncated difference.
unfoldable pub add_token_with_lexeme : TokenType → Bytes → Lexer → Lexer
add_token_with_lexeme t s l = record l {
  tokens =
      l.tokens
      ++ record {
        type = t;
        lexeme = s;
        line = l.cursor.line;
        column = l.cursor.column - rune_count s;
        file = l.file;
      }
        ∷ [];
  layout = record l.layout {
    after_fat_arrow = fat_arrow_after t l.layout.after_fat_arrow;
    block_keyword_seen = block_keyword_after t l.layout.block_keyword_seen;
  };
}

-- `addToken`: the lexeme is source[start:current].
unfoldable pub add_token : TokenType → Lexer → Lexer
unfolding add_token_with_lexeme
add_token t l = add_token_with_lexeme t (encode l.cursor.lexeme) l

deeper_than : List ℕ → ℕ → Bool
deeper_than [] d = true
deeper_than (opened ∷ _) d = ltb opened d

-- `inParenContinuation`
unfoldable pub in_paren_continuation : Layout → Bool
unfolding deeper_than
in_paren_continuation y =
    if y.paren_depth == 0 then false else deeper_than y.closure_paren_depth_stack y.paren_depth
