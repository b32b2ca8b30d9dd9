-- ===== src/Parser/Types/Grammar.antt =====
-- internal/parser/parser_type.go: the grammar of type annotations, over tokens.
use kukicha.Prelude.{◌≡◌, true, false, List, ◌∷◌, ◌++◌, codes}
use kukicha.Token.{
  Token, TokenType, is_type, token_lbracket, token_rbracket, token_reference, token_star,
  token_list, token_of, token_map, token_to, token_channel, token_func, token_lparen, token_rparen,
  token_comma, token_error, token_identifier, token_dot,
}
use kukicha.Ast.Types.{
  TypeAnnotation, TypeAnnotations, primitive_type, named_type, reference_type, list_type, map_type,
  channel_type, function_type, no_types, and_type,
}
use kukicha.Parser.Cursor.{head_or_eof, one_of}
use kukicha.Parser.Types.{is_primitive, result_stops}
use kukicha.Parser.Views.{of_type, IsQuiet}

-- The next token is not ignored, and is not of type `k`.
abbrev pub Lacks : TokenType → List Token → Type 0
Lacks k r = IsQuiet r × (is_type k (head_or_eof r).type ≡ false)

-- A place is the tokens before it, reversed, and those behind it: an annotation leads from one place
-- to another.
mutual
  pub data Reads : TypeAnnotation → List Token → List Token → List Token → List Token → Type 0 where
    primitive :
        {b r : List Token} (t : Token)
        → is_primitive t.lexeme ≡ true
        → Reads
            (primitive_type (of_type token_identifier t) t.lexeme)
            b
            (of_type token_identifier t ∷ r)
            (of_type token_identifier t ∷ b)
            r
    name :
        {b r : List Token} (t : Token)
        → is_primitive t.lexeme ≡ false
        → Lacks token_dot r
        → Reads
            (named_type (of_type token_identifier t) t.lexeme)
            b
            (of_type token_identifier t ∷ r)
            (of_type token_identifier t ∷ b)
            r
    qualified :
        {b r : List Token} (t d n : Token)
        → is_primitive t.lexeme ≡ false
        → Reads
            (named_type (of_type token_identifier t) (t.lexeme ++ (codes "." ++ n.lexeme)))
            b
            (of_type token_identifier t ∷ of_type token_dot d ∷ of_type token_identifier n ∷ r)
            (of_type token_identifier n ∷ of_type token_dot d ∷ of_type token_identifier t ∷ b)
            r
    error_name :
        {b r : List Token} (t : Token)
        → Reads
            (named_type (of_type token_error t) (codes "error"))
            b
            (of_type token_error t ∷ r)
            (of_type token_error t ∷ b)
            r
    reference :
        {b r b' r' : List Token} {e : TypeAnnotation} (t : Token)
        → Reads e (of_type token_reference t ∷ b) r b' r'
        → Reads
            (reference_type (of_type token_reference t) e)
            b
            (of_type token_reference t ∷ r)
            b'
            r'
    star :
        {b r b' r' : List Token} {e : TypeAnnotation} (t : Token)
        → Reads e (of_type token_star t ∷ b) r b' r'
        → Reads (reference_type (of_type token_star t) e) b (of_type token_star t ∷ r) b' r'
    list_of :
        {b r b' r' : List Token} {e : TypeAnnotation} (t o : Token)
        → Reads e (of_type token_of o ∷ of_type token_list t ∷ b) r b' r'
        → Reads
            (list_type (of_type token_list t) e)
            b
            (of_type token_list t ∷ of_type token_of o ∷ r)
            b'
            r'
    brackets :
        {b r b' r' : List Token} {e : TypeAnnotation} (t o : Token)
        → Reads e (of_type token_rbracket o ∷ of_type token_lbracket t ∷ b) r b' r'
        → Reads
            (list_type (of_type token_lbracket t) e)
            b
            (of_type token_lbracket t ∷ of_type token_rbracket o ∷ r)
            b'
            r'
    channel_of :
        {b r b' r' : List Token} {e : TypeAnnotation} (t o : Token)
        → Reads e (of_type token_of o ∷ of_type token_channel t ∷ b) r b' r'
        → Reads
            (channel_type (of_type token_channel t) e)
            b
            (of_type token_channel t ∷ of_type token_of o ∷ r)
            b'
            r'
    map_of :
        {b r b' r' b'' r'' : List Token} {k v : TypeAnnotation} (t o u : Token)
        → Reads k (of_type token_of o ∷ of_type token_map t ∷ b) r b' (of_type token_to u ∷ r')
        → Reads v (of_type token_to u ∷ b') r' b'' r''
        → Reads
            (map_type (of_type token_map t) k v)
            b
            (of_type token_map t ∷ of_type token_of o ∷ r)
            b''
            r''
    map_brackets :
        {b r b' r' b'' r'' : List Token} {k v : TypeAnnotation} (t o u : Token)
        → Reads k
            (of_type token_lbracket o ∷ of_type token_map t ∷ b)
            r
            b'
            (of_type token_rbracket u ∷ r')
        → Reads v (of_type token_rbracket u ∷ b') r' b'' r''
        → Reads
            (map_type (of_type token_map t) k v)
            b
            (of_type token_map t ∷ of_type token_lbracket o ∷ r)
            b''
            r''
    function :
        {b r b' r' b'' r'' : List Token} {ps rs : TypeAnnotations} (t o u : Token)
        → ReadsParameters ps
            (of_type token_lparen o ∷ of_type token_func t ∷ b)
            r
            b'
            (of_type token_rparen u ∷ r')
        → ReadsResults rs (of_type token_rparen u ∷ b') r' b'' r''
        → Reads
            (function_type (of_type token_func t) ps rs)
            b
            (of_type token_func t ∷ of_type token_lparen o ∷ r)
            b''
            r''

  pub data ReadsParameters
      : TypeAnnotations → List Token → List Token → List Token → List Token → Type 0 where
    no_parameter :
        {b r : List Token} (u : Token)
        → ReadsParameters no_types b (of_type token_rparen u ∷ r) b (of_type token_rparen u ∷ r)
    parameters :
        {b r b' r' b'' r'' : List Token} {e : TypeAnnotation} {es : TypeAnnotations}
        → Lacks token_rparen r
        → Reads e b r b' r'
        → ReadsMore es b' r' b'' r''
        → ReadsParameters (and_type e es) b r b'' r''

  -- Annotations behind commas.
  pub data ReadsMore
      : TypeAnnotations → List Token → List Token → List Token → List Token → Type 0 where
    no_more : {b r : List Token} → Lacks token_comma r → ReadsMore no_types b r b r
    one_more :
        {b r b' r' b'' r'' : List Token} {e : TypeAnnotation} {es : TypeAnnotations} (c : Token)
        → Reads e (of_type token_comma c ∷ b) r b' r'
        → ReadsMore es b' r' b'' r''
        → ReadsMore (and_type e es) b (of_type token_comma c ∷ r) b'' r''

  -- No result, one, or several in parentheses.
  pub data ReadsResults
      : TypeAnnotations → List Token → List Token → List Token → List Token → Type 0 where
    no_result :
        {b r : List Token}
        → IsQuiet r
        → one_of result_stops (head_or_eof r).type ≡ true
        → ReadsResults no_types b r b r
    one_result :
        {b r b' r' : List Token} {e : TypeAnnotation}
        → IsQuiet r
        → one_of result_stops (head_or_eof r).type ≡ false
        → Lacks token_lparen r
        → Reads e b r b' r'
        → ReadsResults (and_type e no_types) b r b' r'
    results :
        {b r b' r' b'' r'' : List Token} {e : TypeAnnotation} {es : TypeAnnotations} (o u : Token)
        → Reads e (of_type token_lparen o ∷ b) r b' r'
        → ReadsMore es b' r' b'' (of_type token_rparen u ∷ r'')
        → ReadsResults
            (and_type e es)
            b
            (of_type token_lparen o ∷ r)
            (of_type token_rparen u ∷ b'')
            r''
