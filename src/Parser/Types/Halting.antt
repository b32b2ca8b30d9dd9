-- ===== src/Parser/Types/Halting.antt =====
-- internal/parser/parser_type.go: `parseTypeAnnotation` ends on all tokens.
use kukicha.Prelude.{
  length, Bytes, codes, ◌++◌, ℕ, zero, suc, ◌<◌, ◌≤◌, refl, true, false, arith, if◌then◌else◌, [],
  ◌≡◌,
}
use kukicha.Token.Names.{type_name}
use kukicha.Token.{
  Token, TokenType, is_type, type_index, token_channel, token_comma, token_eof, token_error,
  token_func, token_identifier, token_lbracket, token_list, token_lparen, token_map, token_of,
  token_rbracket, token_reference, token_rparen, token_star, token_to,
}
use kukicha.Ast.Types.{
  TypeAnnotation, named_type, list_type, reference_type, channel_type, function_type, map_type,
  and_type, no_types,
}
use kukicha.Parser.State.{add_error, M, pure, Parser, ◌>>=◌, ◌>>◌}
use kukicha.Parser.Cursor.{head_or_eof, skip_ignored_tokens, peek_token, advance, one_of, consume}
use kukicha.Parser.Types.{
  result_stops, parse_type_annotation, parse_parameter_types, parse_result_types, more_parameters,
  more_results, peeks, type_case, parse_type_name, parse_map_type,
}
use kukicha.Parser.Steps.{
  Halts-if, Halts-pure, Halts-advance, Halts-peek_token, skip_ignored_tokens-IsQuiet,
  skip_ignored_tokens-Steps, Ends, Halts, Halts-le, Halts-check, Halts-consume, halts_rules,
  Halts->>=,
}
use kukicha.Parser.Steps.Progress.{
  HaltsAt, HaltsAt-advance, Halts-matches, Ends-advance, Ends-skipped,
}

other_type : (k t u : TokenType) → is_type k u ≡ false → is_type k t ≡ true → is_type u t ≡ false
other_type k t u a b = ground arith

module _ {A : Type 0} {n : ℕ} {x y : M A} (k : TokenType) where
  Halts-peeks-advance :
      is_type k token_eof ≡ false
      → Halts n x
      → Halts (suc n) y
      → Halts (suc n) (peeks k >>= λ b. if b then advance >> x else y)
  unfolding peeks
  Halts-peeks-advance l d e = record {
    at = λ p h. Ends-advance d e p h _ (λ f. other_type k _ token_eof l f);
  }

Halts-peeks : {n : ℕ} (k : TokenType) → Halts n (peeks k)
unfolding peeks
Halts-peeks k = search halts_rules

module _ (element : M TypeAnnotation) where
  Halts-more_parameters :
      (n : ℕ) → ((m : ℕ) → m ≤ n → Halts m element) → Halts n (more_parameters element n)
  unfolding more_parameters type_index
  Halts-more_parameters zero d = record { at = λ p h. absurd (omega arith) }
  Halts-more_parameters (suc n) d =
      Halts-peeks-advance token_comma refl
        (search
          (halts_rules, d n (omega arith), Halts-more_parameters n (λ m h. d m (omega arith))))
        (search halts_rules)

  Halts-more_results :
      (n : ℕ) → ((m : ℕ) → m ≤ n → Halts m element) → Halts n (more_results element n)
  unfolding more_results
  Halts-more_results zero d = record { at = λ p h. absurd (omega arith) }
  Halts-more_results (suc n) d = Halts->>= (d (suc n) (omega arith)) (λ t.
      Halts-matches token_comma []
        (Halts->>= (Halts-more_results n (λ m h. d m (omega arith)))
          (λ ts. Halts-pure (and_type t ts)))
        (Halts-pure (and_type t no_types)))

  module _ (n : ℕ) (d : (m : ℕ) → m ≤ n → Halts m element) where
    Halts-parse_parameter_types : Halts n (parse_parameter_types element n)
    unfolding parse_parameter_types
    Halts-parse_parameter_types = Halts->>= (Halts-peeks token_rparen) (λ b.
        Halts-if b (Halts-pure no_types) (
          Halts->>= (d n (omega arith))
            (λ t. Halts->>= (Halts-more_parameters n d) (λ ts. Halts-pure (and_type t ts)))))

    Halts-parse_result_types : Halts n (parse_result_types element n)
    unfolding parse_result_types
    Halts-parse_result_types = Halts->>= Halts-peek_token (λ next.
        Halts-if (one_of result_stops next.type) (Halts-pure no_types) (
          Halts->>= (Halts-check token_lparen) (λ several.
            Halts-if several
              (Halts->>= Halts-advance (λ u. Halts->>= (Halts-more_results n d) (λ ts.
                Halts->>= (Halts-consume token_rparen (codes "expected ')' after return types"))
                  (λ u. Halts-pure ts))))
              (Halts->>= (d n (omega arith)) (λ t. Halts-pure (and_type t no_types))))))

    HaltsAt-parse_type_name : HaltsAt token_identifier (suc n) (parse_type_name element)
    unfolding parse_type_name type_index
    HaltsAt-parse_type_name =
        HaltsAt-advance token_identifier refl
          (λ t. search (halts_rules, Halts-peeks, Halts-consume) depth 12)

    -- The key, what stands behind it, and the value.
    Halts-pair :
        (token : Token) (k : TokenType) (message : Bytes)
        → Halts n (
            element >>= λ key.
            consume k message >> (element >>= λ value. pure (map_type token key value)))
    Halts-pair token k message = Halts->>= (d n (omega arith)) (λ key.
        Halts->>= (Halts-consume k message)
          (λ u. Halts->>= (d n (omega arith)) (λ value. Halts-pure (map_type token key value))))

    HaltsAt-parse_map_type : HaltsAt token_map (suc n) (parse_map_type element)
    unfolding parse_map_type type_index
    HaltsAt-parse_map_type = HaltsAt-advance token_map refl (λ t.
        Halts->>= (Halts-check token_lbracket) (λ bracket.
          Halts-if bracket
            (Halts->>= Halts-advance
              (λ u. Halts-pair t token_rbracket (codes "expected ']' after map key type")))
            (Halts->>= (Halts-consume token_of (codes "expected 'of' or '[' after 'map'"))
              (λ u. Halts-pair t token_to (codes "expected 'to' after map key type")))))

    -- A token in front of an annotation, with the token that must stand between them.
    Halts-behind :
        (f : TypeAnnotation → TypeAnnotation) (k : TokenType) (message : Bytes)
        → Halts n (consume k message >> (element >>= λ e. pure (f e)))
    Halts-behind f k message =
        Halts->>= (Halts-consume k message)
          (λ u. Halts->>= (d n (omega arith)) (λ e. Halts-pure (f e)))

    Halts-element : (f : TypeAnnotation → TypeAnnotation) → Halts n (element >>= λ e. pure (f e))
    Halts-element f = Halts->>= (d n (omega arith)) (λ e. Halts-pure (f e))

    Halts-function :
        (token : Token) (m1 m2 : Bytes)
        → Halts n (
            consume token_lparen m1
            >> (parse_parameter_types element n >>= λ parameters.
                consume token_rparen m2
                >> (parse_result_types element n >>= λ returns.
                    pure (function_type token parameters returns))))
    Halts-function token m1 m2 = Halts->>= (Halts-consume token_lparen m1) (λ u.
        Halts->>= Halts-parse_parameter_types (λ ps.
          Halts->>= (Halts-consume token_rparen m2) (λ v.
            Halts->>= Halts-parse_result_types (λ rs. Halts-pure (function_type token ps rs)))))

    other_case :
        (t : Token)
        → Halts (suc n) (
            peek_token >>= λ token.
            add_error token (codes "expected type annotation, got " ++ codes (type_name token.type))
            >> pure (named_type token (codes "_")))
    other_case t = search halts_rules depth 9

    HaltsAt-type_case : (t : Token) (k : TokenType) → HaltsAt k (suc n) (type_case element n t k)
    unfolding type_case type_index
    HaltsAt-type_case t token_lbracket =
        HaltsAt-advance token_lbracket refl (λ u. Halts-behind (list_type u) token_rbracket _)
    HaltsAt-type_case t token_reference =
        HaltsAt-advance token_reference refl (λ u. Halts-element (reference_type u))
    HaltsAt-type_case t token_star =
        HaltsAt-advance token_star refl (λ u. Halts-element (reference_type u))
    HaltsAt-type_case t token_list =
        HaltsAt-advance token_list refl (λ u. Halts-behind (list_type u) token_of _)
    HaltsAt-type_case t token_map = HaltsAt-parse_map_type
    HaltsAt-type_case t token_channel =
        HaltsAt-advance token_channel refl (λ u. Halts-behind (channel_type u) token_of _)
    HaltsAt-type_case t token_func = HaltsAt-advance token_func refl (λ u. Halts-function u _ _)
    HaltsAt-type_case t token_error = HaltsAt-advance token_error refl (λ u. Halts-pure _)
    HaltsAt-type_case t token_identifier = HaltsAt-parse_type_name
    HaltsAt-type_case t _ = record { at = λ q i e h. (other_case t).at q h }

Halts-parse_type_annotation : (n : ℕ) → Halts n (parse_type_annotation n)
unfolding parse_type_annotation
Halts-parse_type_annotation zero = record { at = λ p h. absurd (omega arith) }
Halts-parse_type_annotation (suc n) = record {
  at = λ p h. Ends-skipped p _ (
      (HaltsAt-type_case (parse_type_annotation n) n
          (λ m l. Halts-le m l (Halts-parse_type_annotation n))
          (head_or_eof (skip_ignored_tokens p).rest) _).at
        (skip_ignored_tokens p) (skip_ignored_tokens-IsQuiet p) refl
        (omega (arith, (skip_ignored_tokens-Steps p).forward)));
}

-- If fewer than n tokens are left, parseTypeAnnotation with fuel n returns an annotation. The place
-- has moved forward or is where it was, the tokens are the same, and the errors are those of before
-- with any number behind them.
pub parse_type_annotation-Ends :
    (n : ℕ) (p : Parser) → length p.rest < n → Ends p (parse_type_annotation n p)
parse_type_annotation-Ends n p h = (Halts-parse_type_annotation n).at p h
