-- ===== src/Sema.antt =====
-- The crate kuai-sema (crates/kuai-sema/src): scopes and the resolver.
pub mod Scope
pub mod Lookup
pub mod Resolver
pub mod Mentions
pub mod Runs
pub mod Names
pub mod Returns
pub mod Scoping
pub mod Ends
mod Tests
