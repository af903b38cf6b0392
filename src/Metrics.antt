-- ===== src/Metrics.antt =====
-- The child processes of a node that collects metrics: the executor map of `MetricsTaskManager`.
pub mod Executors
pub mod Holding
pub mod Choosing
pub mod Reached
pub mod Cleanup
mod Tests
