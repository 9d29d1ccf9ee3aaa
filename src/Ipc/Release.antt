-- ===== src/Ipc/Release.antt =====
-- Cancelling an endpoint sets free all the tasks that wait there.
mod Queues
mod Step
mod Loop
pub use Queues.*
pub use Loop.*
