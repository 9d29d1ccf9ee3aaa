-- ===== src/Dtb.antt =====
-- src/arch/rv64/kernel/arch/dtb.cpp: the device tree that the boot loader leaves in memory.
mod Text
mod PropType
mod Reader
mod Parser
pub mod Names
pub mod Tree
pub mod Walk
pub mod Visit
pub mod PropVisit
unfoldable pub use Text.*
unfoldable pub use PropType.*
unfoldable pub use Reader.*
unfoldable pub use Parser.*
