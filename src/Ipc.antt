-- ===== src/Ipc.antt =====
-- src/kernel/ipc.cpp: messages between tasks. Each call runs without interruption, under the locks it
-- takes; where it leaves the core for another context, the model ends and says so.
mod Message
mod Calls
mod Receive
mod Kill
pub mod Waits
pub mod Suspended
pub mod KillStops
mod Cancel
pub mod Release
unfoldable pub use Message.*
unfoldable pub use Calls.*
unfoldable pub use Receive.*
unfoldable pub use Kill.*
unfoldable pub use Cancel.*
