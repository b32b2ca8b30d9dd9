-- ===== src/Lexer/Merge.antt =====
-- internal/lexer/lexer.go: `mergeLineContinuations`, the pass behind the scan that joins the lines
-- of a pipe chain. The tokens from index `i` on are the argument of the loop.
pub mod Passes
pub mod Balance
pub mod Order
pub mod Unpiped
use kukicha.Prelude.{
  ℕ, zero, suc, ◌+◌, ◌-◌, Bool, true, false, not, ◌&&◌, ◌||◌, List, [], ◌∷◌, ◌++◌, Option, none,
  some, ltb, if◌then◌else◌, length,
}
use mathlib.Core.Option.{get_or}
use kukicha.Token.{
  TokenType, Token, is_type, token_pipe, token_onerr, token_newline, token_indent, token_dedent,
  token_comment, token_eof,
}

unfoldable pub is : TokenType → Token → Bool
is t k = is_type k.type t

-- The state of the loop: `i` as what is left, and the three variables.
pub record Merge : Type 0 where
  pub left : List Token
  pub result : List Token
  pub absorbed : ℕ
  pub in_pipe_chain : Bool

-- The loop over comments: those taken, and what is left.
unfoldable pub take_comments : List Token → List Token × List Token
take_comments [] = ([], [])
take_comments (t ∷ ts) =
    let (taken, left) = take_comments ts in
    if is token_comment t then (t ∷ taken, left) else ([], t ∷ ts)

-- The loop over INDENT tokens: their number, and what is left.
unfoldable pub skip_indents : List Token → ℕ × List Token
skip_indents [] = (0, [])
skip_indents (t ∷ ts) =
    let (n, left) = skip_indents ts in if is token_indent t then (n + 1, left) else (0, t ∷ ts)

-- `j < len(tokens) && tokens[j].Type != DEDENT && tokens[j].Type != EOF`
unfoldable pub continues_pipe : List Token → Bool
continues_pipe [] = false
continues_pipe (t ∷ ts) = not (is token_dedent t) && not (is token_eof t)

-- `isPipe || isOnerr` at `j`
unfoldable pub starts_continuation : Bool → List Token → Bool
starts_continuation chain [] = false
starts_continuation chain (t ∷ ts) = is token_pipe t || (is token_onerr t && chain)

-- A NEWLINE with the INDENTs behind it, dropped if what follows continues the line.
unfoldable pub drop_break : List Token → Merge → Merge
drop_break ts m =
    let (n, left) = skip_indents ts in record m { left = left; absorbed = m.absorbed + n }

-- Rule 1, behind the pipe and its comments.
unfoldable pub after_pipe : List Token → Merge → Merge
after_pipe [] m = m
after_pipe (t ∷ ts) m =
    if is token_newline t && continues_pipe (skip_indents ts).1 then drop_break ts m else m

-- Rule 1, at a PIPE.
unfoldable pub merge_pipe : Token → List Token → Merge → Merge
merge_pipe t ts m =
    let (comments, left) = take_comments ts in
    after_pipe left
      (record m { left = left; result = m.result ++ t ∷ comments; in_pipe_chain = true })

-- Rules 2 and 3, at a NEWLINE.
unfoldable pub merge_newline : Token → List Token → Merge → Merge
merge_newline t ts m =
    if starts_continuation m.in_pipe_chain (skip_indents ts).1
    then drop_break ts m
    else record m { left = ts; result = m.result ++ t ∷ []; in_pipe_chain = false }

-- A round of the loop at token `t`.
unfoldable pub merge_step : Token → List Token → Merge → Merge
merge_step t ts m =
    if is token_dedent t && ltb 0 m.absorbed
    then record m { left = ts; absorbed = m.absorbed - 1 }
    else if is token_pipe t
    then merge_pipe t ts m
    else if is token_newline t
    then merge_newline t ts m
    else record m { left = ts; result = m.result ++ t ∷ [] }

-- The loop, on fuel; `none` means that the fuel ran out.
merge_next : (Merge → Option Merge) → List Token → Merge → Option Merge
merge_next go [] m = some m
merge_next go (t ∷ ts) m = go (merge_step t ts m)

unfoldable pub merge_loop : ℕ → Merge → Option Merge
unfolding merge_next
merge_loop zero m = none
merge_loop (suc f) m = merge_next (merge_loop f) m.left m

abbrev pub merge_start : List Token → Merge
merge_start tokens = record { left = tokens; result = []; absorbed = 0; in_pipe_chain = false }

-- Each round takes a token, so one round more than there are tokens is enough.
unfoldable pub merge_run : List Token → Option Merge
merge_run tokens = merge_loop (suc (length tokens)) (merge_start tokens)

result_of : Option Merge → List Token
result_of none = []
result_of (some m) = m.result

-- `mergeLineContinuations`
unfoldable pub merge_line_continuations : List Token → List Token
unfolding result_of
merge_line_continuations tokens = result_of (merge_run tokens)
