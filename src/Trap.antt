-- ===== src/Trap.antt =====
-- src/arch/rv64/kernel/trap.cpp: a trap out of user code, and the way back.
mod Handler
pub mod Calls
unfoldable pub use Handler.*
