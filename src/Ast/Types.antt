-- ===== src/Ast/Types.antt =====
-- internal/ast/ast.go: positions, identifiers and type annotations. An annotation is a pointer in
-- an interface; where it may be nil, it is an `Option` here.
use kukicha.Prelude.{List, Bytes}
use kukicha.Token.{Token}

pub record Directive : Type 0 where
  pub token : Token
  pub name : Bytes
  pub args : List Bytes

pub record Identifier : Type 0 where
  pub token : Token
  pub value : Bytes

mutual
  pub data TypeAnnotation : Type 0 where
    primitive_type : Token → Bytes → TypeAnnotation
    named_type : Token → Bytes → TypeAnnotation
    reference_type : Token → TypeAnnotation → TypeAnnotation
    list_type : Token → TypeAnnotation → TypeAnnotation
    -- The types of keys and of values.
    map_type : Token → TypeAnnotation → TypeAnnotation → TypeAnnotation
    channel_type : Token → TypeAnnotation → TypeAnnotation
    -- Parameters and results.
    function_type : Token → TypeAnnotations → TypeAnnotations → TypeAnnotation

  pub data TypeAnnotations : Type 0 where
    no_types : TypeAnnotations
    and_type : TypeAnnotation → TypeAnnotations → TypeAnnotations

-- `Token` of the annotation, whose place `Pos` returns and whose lexeme `TokenLiteral`.
abbrev pub type_token : TypeAnnotation → Token
type_token (TypeAnnotation.primitive_type t n) = t
type_token (TypeAnnotation.named_type t n) = t
type_token (TypeAnnotation.reference_type t e) = t
type_token (TypeAnnotation.list_type t e) = t
type_token (TypeAnnotation.map_type t k v) = t
type_token (TypeAnnotation.channel_type t e) = t
type_token (TypeAnnotation.function_type t ps rs) = t
