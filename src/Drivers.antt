-- ===== src/Drivers.antt =====
-- The driver manager and the registration of a storage.
pub mod Manager
pub mod Api
pub mod Refused
pub mod Unregistered
pub mod Registered
pub mod Cached
pub mod Access
mod Tests
