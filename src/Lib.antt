-- ===== src/Lib.antt =====
-- Verification of the Kuai compiler's front end: the crates kuai-syntax, kuai-sema and kuai-driver;
-- of its command line; of the safe wrappers of the C++ runtime in the crate kurt; and of the
-- formatter of the development tool xtask.
--
-- The program. The lexer (crates/kuai-syntax/src/lexer.rs, generated by logos) turns a source into
-- tokens; the parser (parser.rs) turns them into a syntax tree (ast.rs) and a list of diagnostics
-- (diagnostic.rs), interning names on the way (name.rs); pretty.rs prints a tree; the resolver
-- (crates/kuai-sema/src/resolver.rs) walks the tree, defines names in scopes (symbol.rs) and
-- reports those that are missing or defined twice. The driver (crates/kuai-driver/src/compiler.rs)
-- runs the parser, the pipeline of attribute handlers (pipeline.rs, attr/) and the resolver on a
-- source, over a context that outlives it (context.rs). The REPL asks check_balanced of lexer.rs
-- whether it has read a whole input; it shares the context, under a mutex, with a server that
-- compiles what it reads from connections (kuai/src/main.rs). The crate kurt wraps the handles of
-- the C++ runtime: instances, devices, tensors, other objects with counted references, and calls of
-- registered functions. The tool xtask runs clang-format on batches of the runtime's sources.
--
-- Which file models which part:
--   Prelude, Outcome     shared names; how a run ends (a value, a panic, or too little fuel), the
--                        sequencing of methods, and the loop statement on fuel
--   Syntax/Token         the enum Token with its derived equality and Debug
--   Syntax/Balance       check_balanced
--   Syntax/Text          equality of texts, formatting
--   Syntax/Diagnostic    Severity, Diagnostic, CompileResult and its queries
--   Syntax/Ast           the syntax tree
--   Syntax/External      the interner of the crate lasso and the parsers of integers and
--                        floats of Rust's str, as parameters
--   Parser/State         struct Parser: new, peek, advance, check, expect, consume, synchronize,
--                        synchronize_until, report_error, parse_identifier
--   Parser/Argument      arguments and attributes
--   Parser/TypeExpr      type expressions
--   Parser/Expr          the Pratt parser of expressions
--   Parser/Knot          the recursion between these three
--   Parser/Decl          parameters, generics, fields, dimensions, paths, prototypes
--   Parser/Stmt          statements and blocks
--   Parser/Parse         parse and parse_impl
--   Parser/Keeps         postconditions of each method of the parser, by what they are about
--   Parser/Unroll        a loop of the parser round by round
--   Parser/Grammar       written expressions without calls, indices and arrays: their lexemes,
--                        their tree, when they are grammatical
--   Parser/Before, Parser/Pratt, Parser/Reads
--                        the Pratt loop on written expressions
--   Parser/Total, Parser/Reports, Parser/Panics
--                        termination, diagnostics and names, and panics of a whole parse
--   Printer/Doc          the documents of the crate pretty, as a parameter, and wrap_list
--   Printer/Expr, Printer/Decl, Printer/Stmt
--                        pretty.rs: every to_doc, and print_ast
--   Printer/Nested, Printer/Lists, Printer/Printable, Printer/Exprs, Printer/Decls, Printer/Stmts
--                        the brackets of a printed tree
--   Sema/Scope           Symbol, Scope, define and resolve
--   Sema/Lookup          definitions and lookups
--   Sema/Resolver        struct Resolver and its methods
--   Sema/Mentions        expressions and types under the resolver
--   Sema/Names           the keys of the names of a tree
--   Sema/Runs, Sema/Returns, Sema/Scoping, Sema/Ends
--                        statements under the resolver, the names that they define, and how its
--                        methods end
--   Driver/Diagnostic    the driver's diagnostics and results
--   Driver/Attr          attr/traits.rs and attr/registry.rs: handlers, actions, metadata,
--                        environments, the registry
--   Driver/Pipeline      Pipeline::apply
--   Driver/Context       context.rs and session.rs
--   Driver/Compiler      Compiler::compile and apply_stage
--   Driver/Hidden, Driver/Stage, Driver/Compile, Driver/Ends, Driver/Builtins
--                        handlers that are not recursive, one stage, a whole compilation and how it
--                        ends, and the builtin functions of a context
--   Kurt/Error, Kurt/Scalar, Kurt/Slice, Kurt/Tensor
--                        crates/kurt/src: error.rs, ku_scalar.rs, ku_slice.rs, ku_tensor.rs, over the
--                        calls of the C++ runtime as a parameter
--   Kurt/Owner, Kurt/Counts
--                        ku_arc.rs and ku_object.rs: the owners of native objects, and the counts of
--                        references
--   Kurt/Handle, Kurt/Call, Kurt/Builtins
--                        ku_c_call.rs, and from_native of ku_object.rs: native calls and their
--                        results, the registry of functions, frame contexts
--   Kurt/Releases, Kurt/Calls
--                        the references of results: released, decoded, and over a whole call
--   Kurt/Instance, Kurt/Lifetime
--                        ku_instance.rs: options, creation, devices; and the owners of an instance
--   Kurt/Options         valid options
--   Kurt/Objects         the constructors and accessors of scalars, strings, slices and arrays, the
--                        layout of tensors, and the guard of a transfer (TransferWait)
--   Kurt/Shape, Kurt/Strides, Kurt/Copy, Kurt/Values
--                        sizes of tensors, strides, upload and download, scalars and slices
--   Repl                 run_repl of kuai/src/main.rs, by the events of the line editor
--   Repl/Events          lines and interrupts
--   Cli                  the rest of kuai/src/main.rs, and diagnostic.rs: compile_and_run, main, the
--                        server, and the mutex that it shares with the REPL
--   Cli/Reports, Cli/Poisoned, Cli/Turns, Cli/Fuel
--                        what is reported, the poisoned lock, the two threads by whose turn it is,
--                        and the same with the compiler of the driver
--   Xtask/Path, Xtask/Result
--                        paths, arguments and their cost; errors, with what they print
--   Xtask/Version, Xtask/Files, Xtask/Batches, Xtask/Format
--                        xtask/src/cpp.rs: the pinned version, collect_files, batches, format
--   Xtask/Filling, Xtask/Chunks
--                        a step of the loop of batches, and all of it
--   Xtask/Paths, Xtask/Selected
--                        the set of files, and which files are collected
--   Xtask/Printed, Xtask/BatchRuns, Xtask/Runs
--                        the version that is printed, and the processes that format starts
--   Samples, and the modules Tests
--                        concrete inputs
--
-- State. A method of the parser or the resolver is a function from a state to an outcome with the
-- next state. The lexer is the list of items that it has still to yield, each with its token
-- (`none` where no token matches), its text and its span. A name is the number of its key. The
-- chain of scopes, which the source links by shared pointers, is a list, innermost first: the
-- source changes a scope only while it is the innermost one. The handlers of attributes are code of
-- the crate's users: their evaluate and transform may panic, and give back what the context has
-- become, whose global scope they can write behind a shared reference.
--
-- Fuel. Every loop of the parser runs on as many rounds as there are lexemes left and one more, and
-- the recursion between methods on the same number: each round and each nested call reads a lexeme.
-- A handler of an attribute may call the pipeline that runs it: the fuel of apply and compile
-- bounds the nesting of these calls, which the program does not bound. The depth of brackets is an
-- unbounded integer where the source has an i32, which holds it for inputs of fewer than 2 ^ 31
-- tokens. Spans and counts are natural numbers, which the length of a source bounds. The sizes of
-- tensors keep the bounds of a 64-bit usize. Arithmetic is checked, as in a debug build: a span
-- that ends before it starts panics in render_as_miette, where a release build wraps around.
--
-- A native call is repeated while its storage is too small: two rounds are enough where a function
-- always needs the same number of results, as the C interface documents.
--
-- Not modelled: the automaton that logos generates; the interner of lasso, the parsers of integers
-- and floats and the layout of the crate pretty, which are parameters; the texts that the command
-- line prints, its history, cli.rs and highligher.rs (kuai/src), which are not in use; the
-- references that the C++ runtime itself holds, as an array does of its elements, and the handle of
-- a tensor whose upload fails; the declarations of the runtime (crates/kurt-sys), beyond the
-- layouts and constants that the wrappers use; the C++ runtime itself (kurt-cpp), the file system,
-- the crate walkdir and processes, which are parameters; and install.rs and the arguments of xtask.
pub mod Prelude
pub mod Outcome
pub mod Syntax
pub mod Parser
pub mod Sema
pub mod Driver
pub mod Kurt
pub mod Printer
pub mod Samples
pub mod Repl
pub mod Xtask
pub mod Cli
