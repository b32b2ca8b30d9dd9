-- ===== src/Ast/Declarations.antt =====
-- internal/ast/ast.go: declarations and programs.
use kukicha.Prelude.{List, Bytes, Option}
use kukicha.Token.{Token}
use kukicha.Ast.Types.{Directive, Identifier, TypeAnnotation, TypeAnnotations}
use kukicha.Ast.Trees.{
  FieldDecl, TypeDecl, Expression, MaybeExpression, Parameters, Block, Statement,
}

pub record PetioleDecl : Type 0 where
  pub token : Token
  pub name : Identifier

pub record SkillDecl : Type 0 where
  pub token : Token
  pub name : Identifier
  pub description : Bytes
  pub version : Bytes

-- The path is a string literal: its token and its value.
pub record ImportDecl : Type 0 where
  pub token : Token
  pub path_token : Token
  pub path : Bytes
  pub alias : Option Identifier

pub record ConstSpec : Type 0 where
  pub name : Identifier
  pub value : Expression

pub record EnumCase : Type 0 where
  pub name : Identifier
  pub value : MaybeExpression
  pub fields : Option (List FieldDecl)

pub record MethodSignature : Type 0 where
  pub name : Identifier
  pub parameters : Parameters
  pub returns : TypeAnnotations

pub record Receiver : Type 0 where
  pub name : Identifier
  pub type : TypeAnnotation

-- The directives of a type declaration stand beside it, as those of the others.
pub data Declaration : Type 0 where
  const_decl : Token → List ConstSpec → Declaration
  type_decl : TypeDecl → List Directive → Declaration
  enum_decl : Token → Identifier → List EnumCase → List Directive → Declaration
  interface_decl : Token → Identifier → List MethodSignature → List Directive → Declaration
  -- Name, Parameters, Returns, Body, Receiver.
  function_decl :
      Token
      → Identifier
      → Parameters
      → TypeAnnotations
      → Block
      → Option Receiver
      → List Directive
      → Declaration
  -- A `VarDeclStmt` at the top level.
  var_decl : Statement → Declaration
  -- An interface that holds a nil pointer, which is not the nil interface.
  nil_interface_decl : Declaration

-- `Imports` may hold nil pointers.
pub record Program : Type 0 where
  pub petiole_decl : Option PetioleDecl
  pub skill_decl : Option SkillDecl
  pub imports : List (Option ImportDecl)
  pub declarations : List Declaration
