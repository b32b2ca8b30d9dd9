-- ===== src/Tests/Streams.antt =====
-- The whole lexer, its lines and the merge of continuation lines, on small sources.
use kukicha.Prelude.{ℕ, List, [], ◌∷◌, some, ◌≡◌, ◌≤◌, refl, codes, Bytes}
use kukicha.Token.{
  TokenType, Token, type_index, token_newline, token_indent, token_dedent, token_pipe,
  token_identifier, token_eof,
}
use kukicha.Lexer.Cursor.{advance}
use kukicha.Lexer.Runes.{is_alpha}
use kukicha.Lexer.Literals.{scan_identifier}
use kukicha.Lexer.Literals.Longest.{IsIdentifier, scan_identifier-IsIdentifier}
use kukicha.Lexer.State.{
  on_cursor, Lexer, new_lexer, in_paren_continuation, add_token, add_token_with_lexeme,
}
use kukicha.Lexer.Indentation.{change_indent, open_indent, handle_indentation}
use kukicha.Lexer.Indentation.Levels.{IsAccepted, change_indent-IsAccepted}
use kukicha.Lexer.Invariant.{IsValid}
use kukicha.Lexer.Invariant.Indentation.{handle_indentation-IsValid}
use kukicha.Lexer.Merge.{
  merge_line_continuations, merge_run, merge_loop, merge_step, is, merge_newline,
  starts_continuation, skip_indents, drop_break, merge_pipe, after_pipe, take_comments,
  continues_pipe,
}
use kukicha.Lexer.Merge.Balance.{nest-merge_line_continuations}
use kukicha.Lexer.Merge.Unpiped.{merge_line_continuations-no_pipe}
use kukicha.Lexer.Merge.Order.{content_of, content_of-merge_line_continuations}
use kukicha.Lexer.Nesting.{nest}
use kukicha.Lexer.Results.{Keeps, new_lexer-IsValid, scan_tokens-Keeps}
use kukicha.Lexer.Scan.{scan_tokens, Outcome}

abbrev block : List ℕ
block = codes "if a\n    b\n"

scan_tokens-Keeps_example :
    (end : Lexer) × (o : Outcome) × (scan_tokens (new_lexer block "a.kuki") ≡ some (end, o))
    × Keeps end o
scan_tokens-Keeps_example = scan_tokens-Keeps block "a.kuki"

abbrev at_line : Lexer
at_line = new_lexer (codes "    b\n") "a.kuki"

handle_indentation-IsValid_example : IsValid (handle_indentation at_line)
handle_indentation-IsValid_example =
    handle_indentation-IsValid at_line (new_lexer-IsValid (codes "    b\n") "a.kuki")

change_indent-IsAccepted_example : IsAccepted 4 at_line (change_indent 4 at_line)
unfolding change_indent open_indent add_token add_token_with_lexeme in_paren_continuation
change_indent-IsAccepted_example = change_indent-IsAccepted 4 at_line refl refl

abbrev tok : TokenType → Bytes → Token
tok t s = record { type = t; lexeme = s; line = 1; column = 1; file = "a.kuki" }

-- A pipe that stands on a deeper line of its own.
abbrev piped : List Token
piped =
    tok token_identifier (codes "a")
    ∷ tok token_newline (codes "\n")
    ∷ tok token_indent []
    ∷ tok token_pipe (codes "|>")
    ∷ tok token_identifier (codes "b")
    ∷ tok token_newline (codes "\n")
    ∷ tok token_dedent []
    ∷ tok token_eof []
    ∷ []

abbrev merged : List Token
merged =
    tok token_identifier (codes "a")
    ∷ tok token_pipe (codes "|>")
    ∷ tok token_identifier (codes "b")
    ∷ tok token_newline (codes "\n")
    ∷ tok token_eof []
    ∷ []

merge_piped : merge_line_continuations piped ≡ merged
unfolding merge_line_continuations merge_run merge_loop merge_step is type_index merge_newline
    starts_continuation skip_indents drop_break merge_pipe after_pipe take_comments continues_pipe
merge_piped = refl

content_of-merge_line_continuations_example :
    content_of (merge_line_continuations piped) ≡ content_of piped
content_of-merge_line_continuations_example = content_of-merge_line_continuations piped

nest-merge_line_continuations_example :
    (e : ℕ) × (nest (some 0) (merge_line_continuations piped) ≡ some e) × (e ≤ 0)
nest-merge_line_continuations_example =
    nest-merge_line_continuations piped 0 (unfold type_index in refl)

abbrev at_letter : Lexer
at_letter = on_cursor advance (new_lexer (codes "list2 of") "a.kuki")

scan_identifier-IsIdentifier_example : IsIdentifier b'l' at_letter (scan_identifier at_letter)
unfolding advance is_alpha
scan_identifier-IsIdentifier_example = scan_identifier-IsIdentifier b'l' at_letter refl refl

abbrev nested_block : List Token
nested_block =
    tok token_identifier (codes "a")
    ∷ tok token_newline (codes "\n")
    ∷ tok token_indent []
    ∷ tok token_identifier (codes "b")
    ∷ tok token_newline (codes "\n")
    ∷ tok token_dedent []
    ∷ tok token_eof []
    ∷ []

merge_line_continuations-no_pipe_example : merge_line_continuations nested_block ≡ nested_block
unfolding is type_index
merge_line_continuations-no_pipe_example = merge_line_continuations-no_pipe nested_block refl
