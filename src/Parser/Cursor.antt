-- ===== src/Parser/Cursor.antt =====
-- internal/parser/parser.go: `peekToken`, `peekAt`, `advance`, `check`, `match`, `consume`,
-- `skipNewlines`, `drainDirectives` and `isIdentifierFollower`.
use kukicha.Prelude.{
  ℕ, zero, suc, Bool, true, false, not, ◌&&◌, ◌||◌, List, [], ◌∷◌, ◌++◌, Bytes, if◌then◌else◌,
  top_or,
}
use kukicha.Token.{
  Token, TokenType, is_type, token_comment, token_semicolon, token_directive, token_eof,
  token_newline, token_walrus, token_assign, token_bit_and, token_bit_and_assign, token_dot,
  token_lbracket, token_comma, token_rparen, token_rbracket, token_rbrace, token_plus_plus,
  token_minus_minus, token_string_mid, token_string_tail, token_not_equals, token_double_equals,
  token_equals, token_isnt, token_lt, token_gt, token_lte, token_gte, token_plus, token_minus,
  token_star, token_slash, token_percent, token_and, token_or, token_and_and, token_or_or,
  token_pipe, token_onerr,
}
use kukicha.Ast.Types.{Directive}
use kukicha.Parser.State.{Parser, done, M, ◌>>=◌, ◌>>◌, pure, eof_token, zero_token, add_error}
use kukicha.Parser.Directives.{parse_directive}

abbrev pub is_ignored : Token → Bool
is_ignored t =
    is_type token_comment t.type || is_type token_semicolon t.type || is_type token_directive t.type

-- `p.pos++` over the token `t`, behind which `ts` are left.
abbrev pub step_over : Token → List Token → Parser → Parser
step_over t ts p = record p { before = t ∷ p.before; rest = ts }

abbrev pub collect : Token → Parser → Parser
collect t p =
    if is_type token_directive t.type
    then record p { pending_directives = p.pending_directives ++ parse_directive t ∷ [] }
    else p

-- The loop of `skipIgnoredTokens` over the tokens left.
unfoldable pub skip_over : List Token → Parser → Parser
skip_over [] p = p
skip_over (t ∷ ts) p =
    let next = skip_over ts (step_over t ts (collect t p)) in if is_ignored t then next else p

unfoldable pub skip_ignored_tokens : Parser → Parser
unfolding skip_over
skip_ignored_tokens p = skip_over p.rest p

abbrev pub head_or_eof : List Token → Token
head_or_eof ts = top_or eof_token ts

unfoldable pub peek_token : M Token
unfolding skip_ignored_tokens
peek_token p = let q = skip_ignored_tokens p in done (head_or_eof q.rest) q

-- `isAtEnd`; where no token is left, `peekToken` answers EOF too.
unfoldable pub is_at_end : M Bool
unfolding peek_token
is_at_end = do t ← peek_token; pure (is_type token_eof t.type)

-- The loop of `peekAt`.
nth_token : ℕ → List Token → Token
nth_token n [] = eof_token
nth_token zero (t ∷ ts) = let next = nth_token zero ts in if is_ignored t then next else t
nth_token (suc n) (t ∷ ts) = nth_token (if is_ignored t then suc n else n) ts

unfoldable pub peek_at : ℕ → M Token
unfolding skip_ignored_tokens nth_token
peek_at offset p = let q = skip_ignored_tokens p in done (nth_token offset q.rest) q

unfoldable pub peek_next_token : M Token
unfolding peek_at
peek_next_token = peek_at 1

abbrev pub previous : Parser → Token
previous p = head_or_eof p.before

unfoldable pub previous_token : M Token
previous_token p = done (previous p) p

-- `advance` behind `isAtEnd`, with the tokens that are left.
unfoldable pub advance_over : List Token → M Token
advance_over [] p = done (previous p) p
advance_over (t ∷ ts) p =
    if is_type token_eof t.type then done (previous p) p else done t (step_over t ts p)

unfoldable pub advance : M Token
unfolding advance_over skip_ignored_tokens
advance p = let q = skip_ignored_tokens p in advance_over q.rest q

unfoldable pub check : TokenType → M Bool
unfolding peek_token
check k = do t ← peek_token; pure (not (is_type token_eof t.type) && is_type k t.type)

-- `slices.ContainsFunc types p.check`
unfoldable pub check_any : List TokenType → M Bool
unfolding check
check_any [] = pure false
check_any (k ∷ ks) = do found ← check k; if found then pure true else check_any ks

-- `match`
unfoldable pub matches : List TokenType → M Bool
unfolding check_any advance
matches ks = do found ← check_any ks; if found then advance >> pure true else pure false

-- `consume`; its callers keep at most the token, which is `Token{}` where it reports an error.
unfoldable pub consume : TokenType → Bytes → M Token
unfolding check advance peek_token add_error
consume k message = do
  found ← check k
  if found then advance else do t ← peek_token; add_error t message; pure zero_token

-- The loop of `skipNewlines` over the tokens left.
newlines_over : List Token → Parser → Parser
newlines_over [] p = p
newlines_over (t ∷ ts) p =
    let ignored = newlines_over ts (step_over t ts (collect t p)) in
    let newline = newlines_over ts (step_over t ts p) in
    if is_ignored t then ignored else if is_type token_newline t.type then newline else p

unfoldable pub skip_newlines : M (Unit {0})
unfolding newlines_over
skip_newlines p = done tt (newlines_over p.rest p)

unfoldable pub drain_directives : M (List Directive)
drain_directives p = done p.pending_directives (record p { pending_directives = [] })

abbrev pub one_of : List TokenType → TokenType → Bool
one_of [] t = false
one_of (k ∷ ks) t = is_type k t || one_of ks t

abbrev identifier_followers : List TokenType
identifier_followers =
    token_walrus ∷ token_assign ∷ token_bit_and ∷ token_bit_and_assign ∷ token_dot ∷ token_lbracket
    ∷ token_comma ∷ token_rparen ∷ token_rbracket ∷ token_rbrace ∷ token_plus_plus
    ∷ token_minus_minus ∷ token_semicolon ∷ token_string_mid ∷ token_string_tail ∷ token_not_equals
    ∷ token_double_equals ∷ token_equals ∷ token_isnt ∷ token_lt ∷ token_gt ∷ token_lte ∷ token_gte
    ∷ token_plus ∷ token_minus ∷ token_star ∷ token_slash ∷ token_percent ∷ token_and ∷ token_or
    ∷ token_and_and ∷ token_or_or ∷ token_pipe ∷ token_onerr ∷ []

-- `isIdentifierFollower`
unfoldable pub is_identifier_follower : M Bool
unfolding peek_next_token
is_identifier_follower = do t ← peek_next_token; pure (one_of identifier_followers t.type)
