-- ===== src/Object.antt =====
-- src/kernel/cap.cpp: the objects that are created from memory, and their destruction.
mod Memory
mod Compare
mod Destroy
pub mod Carve
pub mod Ids
unfoldable pub use Memory.*
unfoldable pub use Compare.*
unfoldable pub use Destroy.*
