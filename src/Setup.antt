-- ===== src/Setup.antt =====
-- src/arch/rv64/kernel/setup.cpp: the capabilities for physical memory that the root task starts with.
mod Regions
mod BootInfo
mod Blocks
mod Powers
mod Memory
mod Start
mod Payload
pub mod Tiling
mod Rising
mod Falling
pub mod Carving
unfoldable pub use Regions.*
unfoldable pub use BootInfo.*
unfoldable pub use Blocks.*
unfoldable pub use Memory.*
unfoldable pub use Start.*
unfoldable pub use Payload.*
