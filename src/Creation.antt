-- ===== src/Creation.antt =====
-- src/kernel/task.cpp: how a task begins; src/kernel/cap.cpp: create_task_object and create_object.
mod Start
mod Objects
pub mod PhysicalMap
unfoldable pub use Start.*
unfoldable pub use Objects.*
