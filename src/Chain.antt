-- ===== src/Chain.antt =====
-- Doubly linked chains: the slots of one capability, the free slots of a task, the ready queue and
-- the queues of an endpoint are chains over the fields `prev` and `next` of their objects.
mod Defs
mod Relink
mod Splice
pub use Defs.*
pub use Relink.*
pub use Splice.*
