-- ===== src/Mapping.antt =====
-- src/kernel/cap.cpp: mapping page tables and pages into page tables. The log lines are left out. The
-- memset of a page that is not a device's writes user memory, which is not modelled.
mod Tables
mod Pages
pub mod Tree
pub mod Leaves
pub mod Undo
unfoldable pub use Tables.*
unfoldable pub use Pages.*
