-- ===== src/Alerts.antt =====
-- The alert dispatcher (internal/alerts/alerts.go).
mod Tests
pub mod Message
pub mod Dispatcher
pub mod Ledger
pub mod Bounds
pub mod Mails
pub mod Quiet
pub mod Ongoing
pub mod Smtp
