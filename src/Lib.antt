-- ===== src/Lib.antt =====
-- mx is a compiler for Modula-2 with extensions. This library models parts of its front end: the
-- tokens, the comments and pragmas of the lexer, the JSON values by which the compiler, its
-- language server and its tools exchange data, the symbol table, the types with their compatibility
-- checks, and the control flow graphs of procedure bodies. Semantic analysis (src/sema.rs) defines
-- and looks up names in the symbol table, gives each symbol the number of a type of the registry,
-- and asks the two checks whether assignments and operands fit; diagnostics and the language server
-- write and read JSON. The lints and a code generator take the graphs that `build_cfg` makes of the
-- intermediate representation.
--
-- Json (src/json.rs)
--   Json.antt           the enum `Json`; Json/Number.antt has f64 and its text as an interface
--   Json/Write.antt     `serialize` and `write_to`
--   Json/Read.antt      `JsonParser` below values: `skip_ws`, `expect`, strings, numbers, literals
--   Json/Parse.antt     `parse_value`, `parse_array`, `parse_object`, `parse`
--   Json/Access.antt    the builders `obj`, `str_val`, .. and the accessors `get`, `as_str`, ..
--   Json/TextFloat.antt an instance of the interface for runs
--   The other modules of Json are proofs; Json/Tests.antt has runs.
--   The parser's state is its position in the text: the model passes the rest of the text, and an
--   error names the position as the length of what was read. Texts are lists of code points.
-- Errors (src/errors.rs)
--   Errors.antt         `CompileError` and `to_json`
-- Token (src/token.rs)
--   Token.antt          the enum `TokenKind`; Token/Keywords.antt has `keyword_from_str`, `describe`
-- Lexer (src/lexer.rs)
--   Lexer.antt          the state of `Lexer`: the rest of the text, the line and the column
--   Lexer/Comments.antt the loops over a comment's content
--   Lexer/Pragmas.antt  `read_pragma`, `skip_disabled_block`, `skip_comment`
--   Moves, Loops and Positions are about the text that is read and the position behind it.
-- Symtab (src/symtab.rs)
--   Symtab.antt         `Symbol`, `Scope`, `SymbolTable`; `SourceLoc` of src/errors.rs
--   Symtab/Names.antt   the map of a scope's names
--   Symtab/Change.antt  the methods that change the table
--   Symtab/Search.antt  the methods that look up
--   Symtab/Valid.antt   the invariant; Keep has the steps of a table, and Calls what a caller may pass
--   A method that may panic on an index or on an empty stack returns `panic`.
-- Types (src/types.rs)
--   Types.antt          the enum `Type` and what it holds
--   Types/Registry.antt `TypeRegistry`
--   Types/Kind.antt     the predicates on one type
--   Types/Compat.antt   `assignment_compatible`, `expression_compatible`
--   Acyclic, Root and Cycle are about the recursion of the checks along aliases and subranges.
-- Hir (src/hir.rs)      `HirExpr`, `Place`, `HirStmt` and what they hold
-- Cfg (src/cfg/)
--   Cfg.antt            `Cfg`, `BasicBlock`, `Terminator` of src/cfg/mod.rs
--   Cfg/Preds.antt      `compute_preds`; Filled and Edges are about what it lists
--   Cfg/Verify.antt     `verify`: a violation panics; Checks and Passes are about its checks
--   Cfg/Cleanup.antt    `remove_unreachable`, `collapse_trivial_gotos`, `cleanup`; Collapse and
--                       Endless are about blocks that are skipped again and again
--   Cfg/Dataflow.antt   `solve_forward` of src/cfg/dataflow.rs; an analysis is a parameter
--   Cfg/Build.antt      `CfgBuilder` of src/cfg/build.rs and its steps; the builder's state is passed
--                       from step to step, and its debug assertions panic
--   Cfg/Build/Exprs.antt, Parts.antt, Lower.antt and Finish.antt have `lower_expr_as_branch`, the
--                       lowering of statements (`lower_stmt`, `lower_if`, ..), and `finish` with
--                       `build_cfg`
--   Inv, Blocks, Steps, Branches and Sound are about single steps; Loops and Rounds, Conditional and
--   Choices, Arms, CaseBodies and Cases, Dispatch, Catch and Tries are about the statements; Allowed
--   has the bodies that can be lowered, Whole and Verified are about them, Misplaced about clauses in
--   a wrong order, Unreached about statements that are never reached, and Conditions about runs over
--   a condition. The parser lets through some bodies that are not allowed (CASE without branches, a
--   clause for every exception before others): on these the builder panics.
--   A vector of statements, clauses or branches is a data type of its own in a mutual block. The parts
--   of a statement's lowering that appear more than once in the source are helpers (`lower_part`,
--   `lower_arm`), which take the lowering of a body as an argument.
-- Common               numbers, lists, texts, results, runs that panic or do not end
--
-- Loops and recursions of the source that are not structural run on fuel, and `out_of_fuel` is
-- their outcome when it is used up. The JSON parser gets more than the length of its text twice,
-- since every call reads a character or is one level below a call that does. A search along
-- scopes gets the number of the scope, since a parent has a lower number. The loops of the lexer
-- get the length of the rest of the text, since each round reads a character. The checks of
-- types get twice the number of types: on acyclic types each side is followed at most once
-- through the registry. On cyclic types the source recurs until its stack overflows. The search
-- for reachable blocks gets one more than the edges of the graph, since each block is taken from
-- the queue once for an edge; the chain of handlers gets one more than the blocks. The rounds of
-- `collapse_trivial_gotos` and of `solve_forward` are an argument, since their end depends on the
-- graph and on the analysis.
--
-- Not modelled: f64 and its conversions, which are a parameter; the hash map's order of
-- iteration, which the methods modelled do not show; the lexer's numbers, strings, names and
-- operators, the parser, semantic analysis, the lints and the code generators; the
-- driver, the language server and the project resolver, which are mostly files, processes and
-- protocols.
pub mod Common
pub mod Cfg
pub mod Errors
pub mod Hir
pub mod Json
pub mod Lexer
pub mod Symtab
pub mod Token
pub mod Types
