-- ===== src/Kernel.antt =====
-- The state of one core of the kernel and the commands over it.
mod State
mod Command
mod Access
pub use State.*
pub use Command.*
unfoldable pub use Access.*
