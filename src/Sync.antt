-- ===== src/Sync.antt =====
-- delfin/task_manager/tasks/resources.py: bringing the database in line with a storage system.
pub mod Classify
pub mod Task
pub mod Classes
pub mod Hosts
pub mod Manager
pub mod Request
pub mod Frame
pub mod Counting
pub mod Progress
pub mod Overdue
pub mod Quiet
pub mod Groups
pub mod Round
pub mod Deleted
pub mod Matching
pub mod Mirror
mod Tests
