-- ===== src/Task/Queue.antt =====
-- The ready queue is a first-in first-out queue of the ready tasks.
pub mod Fields
mod Defs
mod Push
mod Remove
pub use Defs.*
pub use Push.*
pub use Remove.*
