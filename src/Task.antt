-- ===== src/Task.antt =====
-- src/kernel/task.cpp: the free slots of a task, the ready queue, and the life of a task. Each call
-- runs on one core, under its locks and without interruption. `switch_context` is assembly: a
-- command ends where the core leaves for another context.
mod FreeSlots
mod ReadyQueue
mod Life
pub mod Slots
pub mod FreeStack
pub mod Queue
pub mod Waiting
pub mod States
pub mod RoundRobin
pub mod Turns
unfoldable pub use FreeSlots.*
unfoldable pub use ReadyQueue.*
unfoldable pub use Life.*
