-- ===== src/Site.antt =====
-- The per-site database (internal/storage: sqlite files of check results, incidents, errors, state).
mod Tests
pub mod Tables
pub mod Tick
pub mod Query
pub mod Series
