-- ===== src/Parser/Types/Complete.antt =====
-- internal/parser/parser_type.go: `parseTypeAnnotation` reads every annotation of the grammar.
use kukicha.Prelude.{ℕ, zero, suc, ◌≤◌, ◌<◌, ◌≡◌, refl, ◌∙◌, not, List, ◌∷◌, length, codes, arith}
use kukicha.Token.{
  Token, is_type, type_index, token_identifier, token_comma, token_eof, token_rparen, token_lparen,
  token_func,
}
use kukicha.Ast.Types.{TypeAnnotation, TypeAnnotations, and_type, function_type}
use kukicha.Parser.State.{Parser, done, ◌>>=◌, pure}
use kukicha.Parser.Cursor.{head_or_eof, consume}
use kukicha.Parser.Types.{
  parse_type_annotation, parse_parameter_types, parse_result_types, more_parameters, more_results,
}
use kukicha.Parser.Types.Grammar.{Reads, ReadsParameters, ReadsMore, ReadsResults}
use kukicha.Parser.Views.{of_type, at, >>=-done, skip_ignored_tokens-quiet, and-false}

-- The grammar reads on, by a token at least for an annotation.
mutual
  Reads-lt :
      {e : TypeAnnotation} {b r b' r' : List Token} → Reads e b r b' r' → length r' < length r
  Reads-lt (Reads.primitive t e) = omega arith
  Reads-lt (Reads.name t e l) = omega arith
  Reads-lt (Reads.qualified t d n e) = omega arith
  Reads-lt (Reads.error_name t) = omega arith
  Reads-lt (Reads.reference t d) = omega (arith, Reads-lt d)
  Reads-lt (Reads.star t d) = omega (arith, Reads-lt d)
  Reads-lt (Reads.list_of t o d) = omega (arith, Reads-lt d)
  Reads-lt (Reads.brackets t o d) = omega (arith, Reads-lt d)
  Reads-lt (Reads.channel_of t o d) = omega (arith, Reads-lt d)
  Reads-lt (Reads.map_of t o u d e) = omega (arith, Reads-lt d, Reads-lt e)
  Reads-lt (Reads.map_brackets t o u d e) = omega (arith, Reads-lt d, Reads-lt e)
  Reads-lt (Reads.function t o u d e) = omega (arith, ReadsParameters-le d, ReadsResults-le e)

  ReadsParameters-le :
      {es : TypeAnnotations} {b r b' r' : List Token}
      → ReadsParameters es b r b' r'
      → length r' ≤ length r
  ReadsParameters-le (ReadsParameters.no_parameter u) = omega arith
  ReadsParameters-le (ReadsParameters.parameters l d m) = omega (arith, Reads-lt d, ReadsMore-le m)

  ReadsMore-le :
      {es : TypeAnnotations} {b r b' r' : List Token}
      → ReadsMore es b r b' r'
      → length r' ≤ length r
  ReadsMore-le (ReadsMore.no_more l) = omega arith
  ReadsMore-le (ReadsMore.one_more c d m) = omega (arith, Reads-lt d, ReadsMore-le m)

  ReadsResults-le :
      {es : TypeAnnotations} {b r b' r' : List Token}
      → ReadsResults es b r b' r'
      → length r' ≤ length r
  ReadsResults-le (ReadsResults.no_result q s) = omega arith
  ReadsResults-le (ReadsResults.one_result q s l d) = omega (arith, Reads-lt d)
  ReadsResults-le (ReadsResults.results o u d m) = omega (arith, Reads-lt d, ReadsMore-le m)

mutual
  unfolding parse_type_annotation parse_parameter_types parse_result_types more_parameters
      more_results type_index

  reads :
      {e : TypeAnnotation} {b r b' r' : List Token} (f : ℕ) (p : Parser)
      → Reads e b r b' r'
      → length r ≤ f
      → parse_type_annotation (suc f) (at b r p) ≡ done e (at b' r' p)
  reads f p (Reads.error_name t) h = refl
  reads f p (Reads.primitive t e) h = rw e refl
  reads f p (Reads.name {b} {r} t e l) h =
      rw e (rw (skip_ignored_tokens-quiet (of_type token_identifier t ∷ b) r p l.0) (rw l.1 refl))
  reads f p (Reads.qualified t d n e) h = rw e refl
  reads zero p (Reads.reference t d) h = absurd (omega arith)
  reads (suc f) p (Reads.reference t d) h = rw (reads f p d (omega arith)) refl
  reads zero p (Reads.star t d) h = absurd (omega arith)
  reads (suc f) p (Reads.star t d) h = rw (reads f p d (omega arith)) refl
  reads zero p (Reads.list_of t o d) h = absurd (omega arith)
  reads (suc f) p (Reads.list_of t o d) h = rw (reads f p d (omega arith)) refl
  reads zero p (Reads.brackets t o d) h = absurd (omega arith)
  reads (suc f) p (Reads.brackets t o d) h = rw (reads f p d (omega arith)) refl
  reads zero p (Reads.channel_of t o d) h = absurd (omega arith)
  reads (suc f) p (Reads.channel_of t o d) h = rw (reads f p d (omega arith)) refl
  reads zero p (Reads.map_of t o u d e) h = absurd (omega arith)
  reads (suc f) p (Reads.map_of t o u d e) h =
      rw (reads f p d (omega arith)) (rw (reads f p e (omega (arith, Reads-lt d))) refl)
  reads zero p (Reads.map_brackets t o u d e) h = absurd (omega arith)
  reads (suc f) p (Reads.map_brackets t o u d e) h =
      rw (reads f p d (omega arith)) (rw (reads f p e (omega (arith, Reads-lt d))) refl)
  reads zero p (Reads.function t o u d e) h = absurd (omega arith)
  reads (suc f) p (Reads.function {b} {r} {b'} {r'} {b''} {r''} {ps} {rs} t o u d e) h =
      >>=-done (parse_parameter_types (parse_type_annotation (suc f)) (suc f))
        (λ parameters.
          consume token_rparen (codes "expected ')' after function parameters") >>= λ _.
          parse_result_types (parse_type_annotation (suc f)) (suc f) >>= λ returns.
          pure (function_type (of_type token_func t) parameters returns))
        (at (of_type token_lparen o ∷ of_type token_func t ∷ b) r p)
        (at b' (of_type token_rparen u ∷ r') p) ps
        (reads_parameters f (suc f) p d (omega arith) (omega arith))
      ∙ >>=-done (parse_result_types (parse_type_annotation (suc f)) (suc f))
          (λ returns. pure (function_type (of_type token_func t) ps returns))
          (at (of_type token_rparen u ∷ b') r' p) (at b'' r'' p) rs
          (reads_results f (suc f) p e (omega (arith, ReadsParameters-le d))
            (omega (arith, ReadsParameters-le d)))

  reads_parameters :
      {es : TypeAnnotations} {b r b' r' : List Token} (f g : ℕ) (p : Parser)
      → ReadsParameters es b r b' r'
      → length r ≤ f
      → length r < g
      → parse_parameter_types (parse_type_annotation (suc f)) g (at b r p) ≡ done es (at b' r' p)
  reads_parameters f g p (ReadsParameters.no_parameter u) h k = refl
  reads_parameters f g p (ReadsParameters.parameters {b} {r} l d m) h k =
      rw (skip_ignored_tokens-quiet b r p l.0) (
        rw l.1 (
          rw (reads f p d h)
            (rw (reads_more f g p m (omega (arith, Reads-lt d)) (omega (arith, Reads-lt d))) refl)))

  reads_more :
      {es : TypeAnnotations} {b r b' r' : List Token} (f g : ℕ) (p : Parser)
      → ReadsMore es b r b' r'
      → length r ≤ f
      → length r < g
      → more_parameters (parse_type_annotation (suc f)) g (at b r p) ≡ done es (at b' r' p)
  reads_more f zero p m h k = absurd (omega arith)
  reads_more f (suc g) p (ReadsMore.no_more {b} {r} l) h k =
      rw (skip_ignored_tokens-quiet b r p l.0) (rw l.1 refl)
  reads_more f (suc g) p (ReadsMore.one_more c d m) h k =
      rw (reads f p d (omega arith))
        (rw (reads_more f g p m (omega (arith, Reads-lt d)) (omega (arith, Reads-lt d))) refl)

  -- Behind an annotation that is read, the others of the list.
  reads_list :
      {e : TypeAnnotation} {es : TypeAnnotations} (b r : List Token) {b' r' b'' r'' : List Token}
      (f g : ℕ) (p : Parser)
      → parse_type_annotation (suc f) (at b r p) ≡ done e (at b' r' p)
      → ReadsMore es b' r' b'' r''
      → length r' ≤ f
      → length r' ≤ g
      → more_results (parse_type_annotation (suc f)) (suc g) (at b r p)
        ≡ done (and_type e es) (at b'' r'' p)
  reads_list b₀ r₀ f g p first (ReadsMore.no_more {b} {r} l) h k = rw first (
      rw (skip_ignored_tokens-quiet b r p l.0)
        (rw l.1 (rw (and-false (not (is_type token_eof (head_or_eof r).type))) refl)))
  reads_list b r f zero p first (ReadsMore.one_more c d m) h k = absurd (omega arith)
  reads_list b₀ r₀ f (suc g) p first (ReadsMore.one_more {b} {r} c d m) h k = rw first (
      rw
        (reads_list (of_type token_comma c ∷ b) r f g p (reads f p d (omega arith)) m
          (omega (arith, Reads-lt d)) (omega (arith, Reads-lt d)))
        refl)

  reads_results :
      {es : TypeAnnotations} {b r b' r' : List Token} (f g : ℕ) (p : Parser)
      → ReadsResults es b r b' r'
      → length r ≤ f
      → length r < g
      → parse_result_types (parse_type_annotation (suc f)) g (at b r p) ≡ done es (at b' r' p)
  reads_results f g p (ReadsResults.no_result {b} {r} q s) h k =
      rw (skip_ignored_tokens-quiet b r p q) (rw s refl)
  reads_results f g p (ReadsResults.one_result {b} {r} q s l d) h k =
      rw (skip_ignored_tokens-quiet b r p q) (
        rw s (
          rw (skip_ignored_tokens-quiet b r p q) (
            rw l.1 (
              rw (and-false (not (is_type token_eof (head_or_eof r).type)))
                (rw (reads f p d h) refl)))))
  reads_results f zero p (ReadsResults.results o u d m) h k = absurd (omega arith)
  reads_results f (suc g) p (ReadsResults.results {b} {r} o u d m) h k =
      rw
        (reads_list (of_type token_lparen o ∷ b) r f g p (reads f p d (omega arith)) m
          (omega (arith, Reads-lt d)) (omega (arith, Reads-lt d)))
        refl

-- If the grammar leads from a place to another by the annotation e, parseTypeAnnotation, given more
-- fuel than tokens are left, returns e and stops at the second place, with no error and nothing else
-- of the parser changed.
pub parse_type_annotation-Reads :
    {e : TypeAnnotation} {b r b' r' : List Token} (fuel : ℕ) (p : Parser)
    → Reads e b r b' r'
    → length r < fuel
    → parse_type_annotation fuel (at b r p) ≡ done e (at b' r' p)
parse_type_annotation-Reads zero p d h = absurd (omega arith)
parse_type_annotation-Reads (suc fuel) p d h = reads fuel p d (omega arith)
