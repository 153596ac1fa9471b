-- ===== src/Driver.antt =====
-- The crate kuai-driver (crates/kuai-driver/src): attribute handlers, the pipeline over them, the
-- context of a session and the compiler.
pub mod Diagnostic
pub mod Attr
pub mod Pipeline
pub mod Context
pub mod Compiler
pub mod Hidden
pub mod Stage
pub mod Compile
pub mod Ends
pub mod Builtins
mod Tests
