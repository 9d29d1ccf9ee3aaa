-- ===== src/Task/Waiting.antt =====
-- The queues of an endpoint are first-in first-out queues of waiting tasks.
mod Defs
mod Push
mod Remove
pub use Defs.*
pub use Push.*
pub use Remove.*
