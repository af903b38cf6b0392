-- ===== src/Leader.antt =====
-- The election of the node that schedules: delfin/leader_election and the service that drives it.
pub mod Elector
pub mod Alternates
mod Tests
