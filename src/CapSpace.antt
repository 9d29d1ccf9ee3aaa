-- ===== src/CapSpace.antt =====
-- src/kernel/cap_space.cpp: the capability spaces of a task, and the calls that find, move and copy
-- a capability.
mod Space
mod Move
pub mod Lookup
pub mod Delegate
pub mod Copy
unfoldable pub use Space.*
unfoldable pub use Move.*
