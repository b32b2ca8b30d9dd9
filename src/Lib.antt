-- ===== src/Lib.antt =====
-- Verification of the Kukicha compiler, as far as it is modelled: the lexer, the parser with the
-- syntax trees that it builds, the symbol table, the emission of lowered statements, and the
-- application and display of the suggestions of `kukicha-blend`.
--
-- The program. The lexer (internal/lexer) turns a source file into tokens: `ScanTokens` calls
-- `scanToken` until the source is read, closes the open indentation levels and hands the tokens to
-- `mergeLineContinuations`, which joins the lines of a chain of pipes. The parser (internal/parser)
-- builds the trees of internal/ast from them by recursive descent, and the formatter and the
-- language server start from the tokens or the trees. The analyzer (internal/semantic) keeps the
-- names that it knows in the symbol table, which the language server reads too. The code generator
-- lowers pipes and error clauses to the nodes of internal/ir, and `emitIR` writes these as Go. The
-- command blend (internal/blend) goes the other way: it suggests Kukicha for Go source, applies the
-- suggestions to the text and shows the lines that change.
--
-- Files and code.
--   Prelude               library names, Boolean tests, measured lists and slices, signed integers,
--                         text as bytes
--   Token                 internal/lexer/token.go: `TokenType` and `Token`
--   Token/Names           `TokenType.String`; Names/Distinct has its properties
--   Token/Keywords        `keywords`, `LookupKeyword`, and `IsKeyword` of lexer.go
--   Lexer/Runes, Utf8     character classes; the UTF-8 forms that Go's strings give the program
--   Lexer/Cursor          `source`, `start`, `current`, `line`, `column`; `advance`, `peek`, `match`
--   Lexer/State           the other fields of `Lexer`; `NewLexer`, `addToken`, `error`
--   Lexer/Escapes         `scanStringEscape`
--   Lexer/Strings         the four kinds of string literals; Strings/Dedent `dedentTripleQuote` and
--                         the escaping of a text that is put back into the source
--   Lexer/Literals        `scanNumber`, `scanIdentifier`, `scanComment`; Literals/Longest its proofs
--   Lexer/Indentation     `handleIndentation`; Indentation/Levels its accepted changes
--   Lexer/Braces, Scan    `scanToken`, `ScanTokens`
--   Lexer/Merge           `mergeLineContinuations`; Merge/Passes, Balance, Order and Unpiped its
--                         proofs
--   Lexer/Nesting         the nesting of INDENT and DEDENT
--   Lexer/Invariant       the well-formed states, kept by every operation
--   Lexer/Shrinking       what each operation leaves of the source
--   Lexer/Budget, Termination   the fuel of `ScanTokens` is enough
--   Lexer/Multiline       literals whose content is put back into the source and scanned again
--   Lexer/Results         what a caller of `ScanTokens` may rely on
--   Ast/Types, Trees, Declarations   internal/ast/ast.go: annotations; expressions, statements and
--                         what stands in both; declarations and programs
--   Parser/State, Steps   the fields of `Parser`, steps on them, and what every step keeps
--   Parser/Cursor, Directives   `peekToken`, `advance`, `check`, `match`, `consume`, `skipNewlines`,
--                         directives in comments; Views what the steps do at a token that counts
--   Parser/Types          internal/parser/parser_type.go: `parseTypeAnnotation`; Types/Grammar the
--                         grammar of annotations, Complete, Results and Halting its proofs
--   Parser/Parsers        the parsers that a piece of syntax calls for what is nested in it
--   Parser/Numbers, Literals, Arguments, Composites, Lambdas, Switches, Primary, Postfix, Operators
--                         internal/parser/parser_expr.go, from literals up to `parseExpression`
--   Parser/OnErr, Assignments, Statements, Loops, Blocks   internal/parser/parser_stmt.go
--   Parser/TypeDecls, Declarations   internal/parser/parser_decl.go
--   Parser/Programs       internal/parser/parser.go: the head of a file, imports, `Parse`
--   Parser/Nil            an interface whose block is missing
--   Semantic/Symbols      internal/semantic/symbols.go; Store and Chain the shared scopes, Resolution,
--                         Declaration and Scoping the operations against a stack of maps
--   Codegen/Ir            internal/ir/ir.go
--   Codegen/Emit          internal/codegen/emit.go; Emit/Text the text without state, Emit/Breaks and
--                         Emit/Margin the lines of it
--   Blend/Suggestion      internal/blend/suggestion.go: suggestions and the selection of patterns
--   Blend/Apply           internal/blend/apply.go: `Apply`; Apply/Weave the replacement in one pass,
--                         Order and Laws what follows from it
--   Blend/Diff            `diffLines`; Diff/Table its table, Diff/Script its edit script
--   Tests                 runs on small inputs
--
-- State. A Lexer is a record that each operation takes and returns. The source is cut in two at
-- `current`: the runes from `start` on that were read, and the rest; what lies before `start` is
-- never read again. Slices that serve as stacks are lists with the top first. Depths, lines and
-- columns never fall below 0, so they are natural numbers; where the code writes `max(0, a - b)`
-- the truncated difference stands. Runes are taken as valid, as `[]rune(source)` makes them. An
-- error is kept as the message with the values that it prints, not as its text. Scopes are cells
-- of a store, and pointers to them addresses, as the table and inner scopes share them. Blocks of
-- statements are values, as they are built before they are walked. `filepath.Rel`, followed by
-- `filepath.ToSlash`, is a parameter of the emission.
--
-- A Parser is a record too. Its tokens are cut at `pos`: those read, the last first, and the rest;
-- a position that is restored after an attempt is the cut of before. A step is done, has panicked
-- (a nil pointer that the code follows) or is out of fuel. A nil pointer inside an interface, which
-- is not a nil interface, is a constructor of its own. An error is its token with its message, or
-- an error of `strconv` without the text. A float is its 64 bits, and `strconv.ParseFloat`, which
-- gives them, a parameter. The offsets of suggestions are signed. The table of `diffLines` is the
-- list of its rows, built from the last lines on as the code fills it.
--
-- Loops. Loops that read the source run on the list of the runes left. Five loops of the lexer, the
-- table and the emission run on fuel. The body of a string takes one unit for a rune. The merge pass
-- takes one for a token. `ScanTokens` takes twice 3 ^ w * (n + 2) and 2 more, for n runes left with
-- w counting 2 for each single quote and 1 for each double quote: a multi-line literal is put back
-- into the source with its double quotes and line breaks escaped, which at most doubles it, while
-- its quotes are gone from what is left. A scope is older than those inside it, so the number of
-- cells is enough for `Resolve`. The digits of a number are at most as many as it counts, and one
-- more. The parser takes a unit for each level of nesting, and as many rounds in each loop; `parse`
-- gives it one more of both than there are tokens.
--
-- Not modelled. The text of the lexer's messages; `Keywords` and `Token.String`; `TypeInfo`, which
-- the table never follows; the methods `TokenLiteral` and `Pos` of the trees; the patterns of blend,
-- which read Go's own trees, and the hunks that `Diff` prints. The formatter, the lowering, the rest
-- of the code generator, the analyzer and the language server have no model here. Generated code,
-- the commands and the standard library, which the compiler generates, stay out.
mod Prelude
pub mod Token
pub mod Ast
pub mod Blend
pub mod Parser
pub mod Lexer
pub mod Semantic
pub mod Codegen
mod Tests
