-- ===== src/Syscall.antt =====
-- src/kernel/syscall: the system calls. Their arguments are the seven words `args->args`; the numbers
-- of the calls and of the types of capability are libcaprese's.
mod Lookup
mod Caps
mod Tasks
mod Endpoints
mod Tables
mod Pages
mod Registers
mod Dispatch
mod Invoke
pub mod Numbers
pub mod Chosen
pub mod Rights
unfoldable pub use Lookup.*
unfoldable pub use Caps.*
unfoldable pub use Tasks.*
unfoldable pub use Endpoints.*
unfoldable pub use Tables.*
unfoldable pub use Pages.*
unfoldable pub use Registers.*
unfoldable pub use Dispatch.*
unfoldable pub use Invoke.*
