-- ===== src/Ast/Trees.antt =====
-- internal/ast/ast.go: expressions, statements and what stands in both. Lists and pointers that may
-- be nil are types of their own, since they hold expressions. A float is its 64 bits.
use kukicha.Prelude.{ℕ, Bool, List, Bytes, Option, ℤ}
use kukicha.Token.{Token}
use kukicha.Ast.Types.{Identifier, TypeAnnotation, TypeAnnotations}

pub record FieldDecl : Type 0 where
  pub name : Identifier
  pub type : TypeAnnotation
  pub tag : Bytes

-- `Fields` is nil for type aliases.
pub record TypeDecl : Type 0 where
  pub token : Token
  pub name : Identifier
  pub fields : Option (List FieldDecl)
  pub alias_type : Option TypeAnnotation
  pub is_alias : Bool

mutual
  pub data Expression : Type 0 where
    identifier : Identifier → Expression
    integer_literal : Token → ℤ → Expression
    float_literal : Token → ℕ → Expression
    -- Value, Raw, Interpolated, Parts.
    string_literal : Token → Bytes → Bool → Bool → Parts → Expression
    boolean_literal : Token → Bool → Expression
    binary_expr : Token → Expression → Bytes → Expression → Expression
    -- Value, Case, Binding.
    is_expr : Token → Expression → Identifier → Option Identifier → Expression
    unary_expr : Token → Bytes → Expression → Expression
    pipe_expr : Token → Expression → Expression → Bool → Expression
    call_expr : Token → Expression → Expressions → NamedArguments → Bool → Expression
    method_call_expr :
        Token → MaybeExpression → Identifier → Expressions → NamedArguments → Bool → Expression
    field_access_expr : Token → MaybeExpression → Identifier → Expression
    index_expr : Token → Expression → Expression → Expression
    slice_expr : Token → Expression → MaybeExpression → MaybeExpression → Expression
    struct_literal_expr : Token → TypeAnnotation → FieldValues → Bool → Expression
    list_literal_expr : Token → Option TypeAnnotation → Expressions → Bool → Expression
    map_literal_expr : Token → TypeAnnotation → TypeAnnotation → KeyValuePairs → Bool → Expression
    -- IsKeyed, Entries, WasMultiline; the parser leaves ResolvedType nil.
    untyped_composite_literal : Token → Bool → UntypedEntries → Bool → Expression
    receive_expr : Token → Expression → Expression
    type_cast_expr : Token → Expression → TypeAnnotation → Expression
    type_assertion_expr : Token → Expression → TypeAnnotation → Expression
    empty_expr : Token → Option TypeAnnotation → Expression
    discard_expr : Token → Expression
    error_expr : Token → Expression → Expression
    return_expr : Token → Expressions → Expression
    onerr_expr : Token → Expression → Expression → Expression
    make_expr : Token → TypeAnnotation → Expressions → Expression
    close_expr : Token → Expression → Expression
    panic_expr : Token → Expression → Expression
    recover_expr : Token → Expression
    function_literal : Token → Parameters → TypeAnnotations → Block → Expression
    -- Body and Block, of which one is nil.
    arrow_lambda : Token → Parameters → MaybeExpression → MaybeBlock → Expression
    address_of_expr : Token → Expression → Expression
    deref_expr : Token → Expression → Expression
    -- The switch is a `SwitchStmt` or a `TypeSwitchStmt`.
    piped_switch_expr : Token → Expression → Statement → Expression
    block_expr : Token → Block → Expression
    if_expression : Token → Expression → Expression → Expression → Expression

  pub data MaybeExpression : Type 0 where
    no_expression : MaybeExpression
    an_expression : Expression → MaybeExpression

  pub data Expressions : Type 0 where
    no_expressions : Expressions
    and_expression : Expression → Expressions → Expressions

  pub data Parts : Type 0 where
    no_parts : Parts
    literal_part : Bytes → Parts → Parts
    expression_part : Expression → Parts → Parts

  pub data NamedArguments : Type 0 where
    no_named : NamedArguments
    and_named : Token → Identifier → Expression → NamedArguments → NamedArguments

  pub data FieldValues : Type 0 where
    no_values : FieldValues
    and_value : Identifier → Expression → FieldValues → FieldValues

  pub data KeyValuePairs : Type 0 where
    no_pairs : KeyValuePairs
    and_pair : Expression → Expression → KeyValuePairs → KeyValuePairs

  pub data UntypedEntries : Type 0 where
    no_entries : UntypedEntries
    and_entry : MaybeExpression → Expression → UntypedEntries → UntypedEntries

  -- Name, Type, Variadic, DefaultValue.
  pub data Parameters : Type 0 where
    no_parameters : Parameters
    and_parameter :
        Identifier → Option TypeAnnotation → Bool → MaybeExpression → Parameters → Parameters

  pub data Block : Type 0 where
    block_stmt : Token → Statements → Block

  pub data MaybeBlock : Type 0 where
    no_block : MaybeBlock
    a_block : Block → MaybeBlock

  -- Handler, Explain, ShorthandReturn, ShorthandContinue, ShorthandBreak, Alias.
  pub data OnErrClause : Type 0 where
    onerr_clause : Token → MaybeExpression → Bytes → Bool → Bool → Bool → Bytes → OnErrClause

  pub data MaybeOnErr : Type 0 where
    no_onerr : MaybeOnErr
    an_onerr : OnErrClause → MaybeOnErr

  pub data Statement : Type 0 where
    -- Names, Type, Values, Token, OnErr.
    var_decl_stmt :
        List Identifier → Option TypeAnnotation → Expressions → Token → MaybeOnErr → Statement
    -- Targets, Values, Token, OnErr.
    assign_stmt : Expressions → Expressions → Token → MaybeOnErr → Statement
    inc_dec_stmt : Token → Expression → Bytes → Statement
    return_stmt : Token → Expressions → Statement
    continue_stmt : Token → Statement
    break_stmt : Token → Statement
    -- Init, Condition, Consequence, Alternative.
    if_stmt : Token → MaybeStatement → Expression → Block → MaybeStatement → Statement
    else_stmt : Token → Block → Statement
    switch_stmt : Token → MaybeExpression → WhenCases → MaybeOtherwise → Statement
    select_stmt : Token → SelectCases → MaybeOtherwise → Statement
    type_switch_stmt : Token → Expression → Identifier → TypeCases → MaybeOtherwise → Statement
    -- Variable, Index, Collection, Body.
    for_range_stmt : Token → Identifier → Option Identifier → Expression → Block → Statement
    -- Variable, Start, End, Through, Body.
    for_numeric_stmt : Token → Identifier → Expression → Expression → Bool → Block → Statement
    for_condition_stmt : Token → Expression → Block → Statement
    defer_stmt : Token → MaybeExpression → MaybeBlock → Statement
    go_stmt : Token → MaybeExpression → MaybeBlock → Statement
    send_stmt : Token → Expression → Expression → Statement
    expression_stmt : Expression → MaybeOnErr → Statement
    type_decl_stmt : TypeDecl → Statement
    -- An interface that holds a nil pointer, which is not the nil interface.
    nil_defer_stmt : Statement
    nil_go_stmt : Statement

  pub data MaybeStatement : Type 0 where
    no_statement : MaybeStatement
    a_statement : Statement → MaybeStatement

  pub data Statements : Type 0 where
    no_statements : Statements
    and_statement : Statement → Statements → Statements

  pub data WhenCases : Type 0 where
    no_cases : WhenCases
    and_case : Token → Expressions → Block → WhenCases → WhenCases

  pub data MaybeOtherwise : Type 0 where
    no_otherwise : MaybeOtherwise
    an_otherwise : Token → Block → MaybeOtherwise

  -- Bindings, Recv, Send, Body.
  pub data SelectCases : Type 0 where
    no_select_cases : SelectCases
    and_select_case :
        Token → List Bytes → MaybeExpression → MaybeStatement → Block → SelectCases → SelectCases

  pub data TypeCases : Type 0 where
    no_type_cases : TypeCases
    and_type_case : Token → TypeAnnotation → Block → TypeCases → TypeCases
