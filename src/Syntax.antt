-- ===== src/Syntax.antt =====
-- The crate kuai-syntax (crates/kuai-syntax/src) without its parser: tokens, texts, diagnostics,
-- the syntax tree, and what the crate takes from outside the repository.
pub mod Token
pub mod Text
pub mod Diagnostic
pub mod Balance
pub mod Ast
pub mod External
mod Tests
