-- ===== src/Parser.antt =====
-- crates/kuai-syntax/src/parser.rs: the parser's state, its outcomes and one module for each part
-- of the grammar.
pub mod State
pub mod Argument
pub mod TypeExpr
pub mod Expr
pub mod Knot
pub mod Decl
pub mod Stmt
pub mod Parse
pub mod Keeps
pub mod Total
pub mod Reports
pub mod Panics
pub mod Unroll
pub mod Grammar
pub mod Before
pub mod Pratt
pub mod Reads
mod Tests
