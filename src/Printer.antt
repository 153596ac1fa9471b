-- ===== src/Printer.antt =====
-- crates/kuai-syntax/src/pretty.rs: the printer of syntax trees.
pub mod Doc
pub mod Expr
pub mod Decl
pub mod Stmt
pub mod Nested
pub mod Lists
pub mod Printable
pub mod Exprs
pub mod Decls
pub mod Stmts
mod Tests
