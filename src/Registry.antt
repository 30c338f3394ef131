-- ===== src/Registry.antt =====
-- The registry database (internal/storage/registry.go, admin.go, session.go, alerts.go).
mod Tests
pub mod Tables
pub mod Sites
pub mod Users
pub mod Sessions
pub mod Channels
pub mod Rules
pub mod Deliveries
pub mod Claims
pub mod Revocation
pub mod Roundtrip
pub mod Monitored
