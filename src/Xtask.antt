-- ===== src/Xtask.antt =====
-- The repository's development tasks (xtask/src).
pub mod Result
pub mod Path
pub mod Batches
pub mod Filling
pub mod Chunks
pub mod Version
pub mod Files
pub mod Format
pub mod Printed
pub mod BatchRuns
pub mod Runs
pub mod Paths
pub mod Selected
mod Tests
