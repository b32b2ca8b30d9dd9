-- ===== src/Lexer/Nesting.antt =====
-- The nesting of INDENT and DEDENT in a token stream, and the relation between two states of the
-- lexer that differ in no block structure.
use mathlib.Core.Option
use kukicha.Prelude.{
  ℕ, zero, suc, false, List, [], ◌∷◌, ◌++◌, Option, none, some, ◌≡◌, refl, ◌∙◌, Bytes,
  if◌then◌else◌,
}
use kukicha.Token.{TokenType, Token, is_type, token_indent, token_dedent}
use kukicha.Lexer.Cursor.{Cursor}
use kukicha.Lexer.State.{Lexer, add_token_with_lexeme}

abbrev pub close_level : Option ℕ → Option ℕ
close_level none = none
close_level (some zero) = none
close_level (some (suc d)) = some d

-- The number of open blocks behind a token; `none` once a DEDENT closes none.
abbrev pub nest_step : Option ℕ → TokenType → Option ℕ
nest_step o t =
    if is_type t token_indent
    then Option.map suc o
    else if is_type t token_dedent
    then close_level o
    else o

abbrev pub nest : Option ℕ → List Token → Option ℕ
nest o [] = o
nest o (t ∷ ts) = nest (nest_step o t.type) ts

pub nest-append : (o : Option ℕ) (xs ys : List Token) → nest o (xs ++ ys) ≡ nest (nest o xs) ys
nest-append o [] ys = refl
nest-append o (x ∷ xs) ys = nest-append (nest_step o x.type) xs ys

abbrev pub depth_of : Lexer → Option ℕ
depth_of l = nest (some 0) l.tokens

pub depth_of-add :
    (t : TokenType) (s : Bytes) (l : Lexer)
    → depth_of (add_token_with_lexeme t s l) ≡ nest_step (depth_of l) t
unfolding add_token_with_lexeme
depth_of-add t s l = nest-append (some 0) l.tokens _

-- Neither INDENT nor DEDENT.
abbrev pub IsPlain : TokenType → Type 0
IsPlain t = (is_type t token_indent ≡ false) × (is_type t token_dedent ≡ false)

pub nest_step-IsPlain : (o : Option ℕ) (t : TokenType) → IsPlain t → nest_step o t ≡ o
nest_step-IsPlain o t (p, q) = rw (p, q)

-- From `l` to `m` no block is opened or closed.
pub record IsTame (l m : Lexer) : Type 0 where
  pub indents : m.layout.indent_stack ≡ l.layout.indent_stack
  pub closures : m.layout.closure_indent_stack ≡ l.layout.closure_indent_stack
  pub closure_parens : m.layout.closure_paren_depth_stack ≡ l.layout.closure_paren_depth_stack
  pub braces : m.layout.brace_stack ≡ l.layout.brace_stack
  pub blocks : m.layout.brace_block_depth ≡ l.layout.brace_block_depth
  pub depth : depth_of m ≡ depth_of l

pub IsTame-refl : (l : Lexer) → IsTame l l
IsTame-refl l = record {
  indents = refl;
  closures = refl;
  closure_parens = refl;
  braces = refl;
  blocks = refl;
  depth = refl;
}

pub IsTame-trans : {l m n : Lexer} → IsTame l m → IsTame m n → IsTame l n
IsTame-trans p q = record {
  indents = q.indents ∙ p.indents;
  closures = q.closures ∙ p.closures;
  closure_parens = q.closure_parens ∙ p.closure_parens;
  braces = q.braces ∙ p.braces;
  blocks = q.blocks ∙ p.blocks;
  depth = q.depth ∙ p.depth;
}

-- Neither the position nor the errors matter.
pub IsTame-cursor : (k : Cursor) (l : Lexer) → IsTame l (record l { cursor = k })
IsTame-cursor k l = record {
  indents = refl;
  closures = refl;
  closure_parens = refl;
  braces = refl;
  blocks = refl;
  depth = refl;
}

pub add_token_with_lexeme-IsTame :
    (t : TokenType) (s : Bytes) (l : Lexer) → IsPlain t → IsTame l (add_token_with_lexeme t s l)
unfolding add_token_with_lexeme
add_token_with_lexeme-IsTame t s l p = record {
  indents = refl;
  closures = refl;
  closure_parens = refl;
  braces = refl;
  blocks = refl;
  depth = nest-append (some 0) l.tokens _ ∙ nest_step-IsPlain _ t p;
}
