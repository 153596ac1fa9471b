-- ===== src/Kurt.antt =====
-- The safe wrappers of the C++ runtime (crates/kurt/src).
pub mod Error
pub mod Scalar
pub mod Tensor
pub mod Shape
pub mod Strides
pub mod Copy
pub mod Slice
pub mod Values
pub mod Owner
pub mod Counts
pub mod Handle
pub mod Call
pub mod Releases
pub mod Calls
pub mod Instance
pub mod Lifetime
pub mod Options
pub mod Builtins
pub mod Objects
mod Tests
mod CallTests
mod InstanceTests
