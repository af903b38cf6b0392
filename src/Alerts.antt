-- ===== src/Alerts.antt =====
-- Alerts: the time range of a synchronization and the watch over the SNMP
-- connection of a storage.
pub mod Source
pub mod Config
pub mod Configured
pub mod Receiver
pub mod Service
pub mod Every
pub mod Stored
pub mod Load
pub mod Marked
pub mod Loaded
pub mod Trap
pub mod Hex
pub mod Communities
pub mod Syncing
pub mod Checked
pub mod Tracking
pub mod Found
pub mod Tracked
pub mod InStep
pub mod Range
pub mod Validator
mod Tests
