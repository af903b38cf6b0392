-- ===== src/Telemetry.antt =====
-- Performance collection: the jobs of the nodes, how they are distributed, and the retries of a
-- collection that has failed.
pub mod Tables
pub mod Distribute
pub mod Placing
pub mod Jobs
pub mod Window
pub mod Reassign
pub mod Handover
pub mod Once
pub mod Removal
pub mod Periodic
pub mod Moving
pub mod Rejoin
pub mod Join
pub mod Failed
pub mod Retry
mod Tests
