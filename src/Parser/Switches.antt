-- ===== src/Parser/Switches.antt =====
-- internal/parser/parser_stmt.go: the bodies of `switch` statements, which expressions hold too.
use kukicha.Prelude.{ℕ, zero, suc, Bool, true, false, ◌||◌, [], ◌∷◌, Bytes, codes, if◌then◌else◌}
use kukicha.Token.{Token, token_indent, token_dedent, token_case, token_default}
use kukicha.Ast.Types.{Identifier}
use kukicha.Ast.Trees.{
  Expression, MaybeExpression, and_expression, Statement, switch_stmt, type_switch_stmt, WhenCases,
  no_cases, and_case, MaybeOtherwise, no_otherwise, an_otherwise, TypeCases, no_type_cases,
  and_type_case,
}
use kukicha.Parser.State.{M, ◌>>=◌, ◌>>◌, pure, no_fuel, add_error}
use kukicha.Parser.Cursor.{
  peek_token, is_at_end, advance, check, matches, consume, skip_newlines, previous_token,
}
use kukicha.Parser.Parsers.{Parsers, parse_type}
use kukicha.Parser.Arguments.{more_expressions}

abbrev pub has_otherwise : MaybeOtherwise → Bool
has_otherwise no_otherwise = false
has_otherwise (an_otherwise t b) = true

-- An error at the token, if the switch has its `otherwise`.
unfoldable pub report_late : MaybeOtherwise → Token → Bytes → M (Unit {0})
unfolding add_error
report_late o t message = if has_otherwise o then add_error t message else pure tt

-- The loop over the branches of a switch: `branch` reads what follows `when`, and the branches are
-- those that `when` reads, `C`. The loop ends with the last `otherwise`.
module _ {C : Type 0} (self : Parsers) (branch : Token → M (C → C)) (nothing : C)
    (repeated unexpected : Bytes) where
  unfoldable pub parse_branches : MaybeOtherwise → ℕ → M (C × MaybeOtherwise)
  unfolding check is_at_end skip_newlines matches previous_token report_late add_error peek_token
      advance
  parse_branches o zero = no_fuel
  parse_branches o (suc fuel) = do
    closed ← check token_dedent
    end ← is_at_end
    if closed || end then pure (nothing, o) else do
      skip_newlines
      dedent ← check token_dedent
      if dedent then pure (nothing, o) else do
        when ← matches (token_case ∷ [])
        if when
            then (do
              t ← previous_token
              report_late o t (codes "'when' branch after 'otherwise' will never execute")
              add ← branch t
              (cs, last) ← parse_branches o fuel
              pure (add cs, last))
            else do
              otherwise ← matches (token_default ∷ [])
              if otherwise
                  then (do
                    t ← previous_token
                    report_late o t repeated
                    skip_newlines
                    body ← self.parse_block
                    parse_branches (an_otherwise t body) fuel)
                  else do t ← peek_token; add_error t unexpected; advance; parse_branches o fuel

module _ (self : Parsers) where
  -- The values and the body of a branch.
  unfoldable pub when_branch : Token → M (WhenCases → WhenCases)
  unfolding more_expressions skip_newlines
  when_branch t = do
    e ← self.parse_expression
    es ← more_expressions self self.fuel
    skip_newlines
    body ← self.parse_block
    pure (and_case t (and_expression e es) body)

  unfoldable pub parse_switch_body : Token → MaybeExpression → M Statement
  unfolding skip_newlines matches peek_token add_error parse_branches when_branch consume
  parse_switch_body token value = do
    skip_newlines
    indent ← matches (token_indent ∷ [])
    if indent
        then (do
          (cases, o) ←
              parse_branches self when_branch no_cases
                (codes "switch can only have one otherwise branch")
                (codes "expected 'when' or 'otherwise' in switch block") no_otherwise self.fuel
          consume token_dedent (codes "expected dedent after switch block")
          skip_newlines
          pure (switch_stmt token value cases o))
        else do
          t ← peek_token
          add_error t (codes "expected indented block after switch")
          pure (switch_stmt token value no_cases no_otherwise)

  unfoldable pub type_branch : Token → M (TypeCases → TypeCases)
  unfolding parse_type skip_newlines
  type_branch t = do
    type ← parse_type self
    skip_newlines
    body ← self.parse_block
    pure (and_type_case t type body)

  unfoldable pub parse_type_switch_body : Token → Expression → Identifier → M Statement
  unfolding skip_newlines matches peek_token add_error parse_branches type_branch consume
  parse_type_switch_body token value binding = do
    skip_newlines
    indent ← matches (token_indent ∷ [])
    if indent
        then (do
          (cases, o) ←
              parse_branches self type_branch no_type_cases
                (codes "type switch can only have one otherwise branch")
                (codes "expected 'when' or 'otherwise' in type switch block") no_otherwise self.fuel
          consume token_dedent (codes "expected dedent after type switch block")
          skip_newlines
          pure (type_switch_stmt token value binding cases o))
        else do
          t ← peek_token
          add_error t (codes "expected indented block after type switch")
          pure (type_switch_stmt token value binding no_type_cases no_otherwise)
