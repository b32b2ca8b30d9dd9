-- ===== src/Lexer/Results.antt =====
-- What `ScanTokens` promises its callers.
use mathlib.Core.Option
use kukicha.Prelude.{
  ℕ, ◌+◌, ◌-◌, ◌≤◌, String, true, false, List, [], ◌∷◌, ◌++◌, some, ◌≡◌, ◌≢◌, refl, ap, ◌∙◌, arith,
  is_empty, Bool-cases, inl, inr,
}
use kukicha.Token.{Token, type_index, token_eof}
use kukicha.Lexer.Utf8.{encode, rune_count}
use kukicha.Lexer.State.{Lexer, LexError, new_lexer, add_token, add_token_with_lexeme}
use kukicha.Lexer.Nesting.{nest}
use kukicha.Lexer.Merge.{is, merge_line_continuations}
use kukicha.Lexer.Merge.Balance.{nest-merge_line_continuations}
use kukicha.Lexer.Merge.Order.{content_of, content_of-append, content_of-merge_line_continuations}
use kukicha.Lexer.Indentation.{close_all}
use kukicha.Lexer.Scan.{scan_tokens, close_file, outcome_of, Outcome, scanned, failed}
use kukicha.Lexer.Shrinking.Literals.{add_token-Scans}
use kukicha.Lexer.Invariant.{IsValid, IsTame-IsValid, open_blocks}
use kukicha.Lexer.Invariant.Indentation.{close_all-IsValid}
use kukicha.Lexer.Termination.{scan_all}

pub new_lexer-IsValid : (source : List ℕ) (name : String) → IsValid (new_lexer source name)
new_lexer-IsValid source name = record {
  nested = refl;
  levels = refl;
  paired = refl;
  blocks = refl;
}

-- The state behind the loop and the last tokens.
record IsClosed (l : Lexer) : Type 0 where
  valid : IsValid l
  flat : l.layout.indent_stack ≡ 0 ∷ []
  before : List Token
  pub last : Token
  pub ends : l.tokens ≡ before ++ last ∷ []
  pub is_eof : last.type ≡ token_eof

close_file-IsClosed : (l : Lexer) → IsValid l → IsClosed (close_file l)
unfolding close_file type_index
close_file-IsClosed l v =
    let c = close_all l.layout.indent_stack l in
    let (w, flat_stack) = close_all-IsValid l.layout.indent_stack l refl v in
    let s = add_token-Scans token_eof c (refl, refl) in
    record {
      valid = IsTame-IsValid s.tame w;
      flat = s.tame.indents ∙ flat_stack;
      before = c.tokens;
      last = record {
        type = token_eof;
        lexeme = encode c.cursor.lexeme;
        line = c.cursor.line;
        column = c.cursor.column - rune_count (encode c.cursor.lexeme);
        file = c.file;
      };
      ends = unfold add_token add_token_with_lexeme in refl;
      is_eof = refl;
    }

scan_tokens_lem :
    (source : List ℕ) (name : String)
    → (l : Lexer) × (scan_tokens (new_lexer source name) ≡ some (outcome_of l)) × IsClosed l
unfolding scan_tokens
scan_tokens_lem source name =
    let (m, ran, v, over) = scan_all (new_lexer source name) (new_lexer-IsValid source name) in
    (close_file m, ap (Option.map (λ n. outcome_of (close_file n))) ran, close_file-IsClosed m v)

-- What a successful scan hands to the parser.
pub record IsStream (end : Lexer) (ts : List Token) : Type 0 where
  pub open_at_end : ℕ
  pub nesting : nest (some 0) ts ≡ some open_at_end
  pub bounded : open_at_end ≤ open_blocks end.layout.brace_stack
  pub content : List Token
  pub last : Token
  pub ends : content_of ts ≡ content ++ last ∷ []
  pub is_eof : last.type ≡ token_eof

content_of_eof : (t : Token) → t.type ≡ token_eof → content_of (t ∷ []) ≡ t ∷ []
unfolding content_of is type_index
content_of_eof t e = rw e refl

IsClosed-IsStream :
    (l end : Lexer)
    → IsClosed l
    → end.layout ≡ l.layout
    → IsStream end (merge_line_continuations l.tokens)
IsClosed-IsStream l end c same =
    let d =
      nest-merge_line_continuations l.tokens (0 + l.layout.brace_block_depth)
        (c.valid.nested ∙ rw c.flat refl) in
    record {
      open_at_end = d.0;
      nesting = d.1;
      bounded = rw same (omega (arith, d.2, c.valid.blocks));
      content = content_of c.before;
      last = c.last;
      ends =
          content_of-merge_line_continuations l.tokens
          ∙ ap content_of c.ends
          ∙ content_of-append c.before (c.last ∷ [])
          ∙ ap (◌++◌ (content_of c.before)) (content_of_eof c.last c.is_eof);
      is_eof = c.is_eof;
    }

-- What the caller may rely on: tokens are returned where no error was recorded, and else all the
-- recorded errors.
abbrev pub Keeps : Lexer → Outcome → Type 0
Keeps end (scanned ts) = (end.errors ≡ []) × IsStream end ts
Keeps end (failed es) = (end.errors ≡ es) × (es ≢ [])

not_empty : (es : List LexError) → is_empty es ≡ false → es ≢ []
not_empty [] h = cc
not_empty (e ∷ es) h = cc

empty : (es : List LexError) → is_empty es ≡ true → es ≡ []
empty [] h = refl
empty (e ∷ es) h = cc

outcome_of-Keeps : (l : Lexer) → IsClosed l → Keeps (outcome_of l).0 (outcome_of l).1
unfolding outcome_of
outcome_of-Keeps l c = elim (Bool-cases (is_empty l.errors)) [
  | inl clean ↦ rw clean (empty l.errors clean, IsClosed-IsStream l _ c refl)
  | inr dirty ↦ rw dirty (refl, not_empty l.errors dirty)
]

-- For every source text `ScanTokens` ends. If it returns tokens, then no error was recorded, every
-- DEDENT among the tokens closes an INDENT that is open, at most as many INDENTs stay open as
-- block braces were not closed, and the last of the tokens that are neither NEWLINE, INDENT nor
-- DEDENT is EOF. Else it returns the recorded errors, at least one.
pub scan_tokens-Keeps :
    (source : List ℕ) (name : String)
    → (end : Lexer) × (o : Outcome) × (scan_tokens (new_lexer source name) ≡ some (end, o))
      × Keeps end o
scan_tokens-Keeps source name =
    let (l, ran, c) = scan_tokens_lem source name in
    ((outcome_of l).0, (outcome_of l).1, ran, outcome_of-Keeps l c)
