-- ===== src/Parser/Keeps.antt =====
-- One induction over the parser for every property that its methods keep: an invariant of the
-- state, the bound on the lexemes left, and the conditions under which it may panic.
pub mod Rules
pub mod State
pub mod Argument
pub mod TypeExpr
pub mod Elements
pub mod Expr
pub mod Knot
pub mod Decl
pub mod Parts
pub mod Plain
pub mod Stmt
pub mod Parse
