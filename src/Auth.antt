-- ===== src/Auth.antt =====
-- internal/auth: login throttling and password rules.
mod Tests
pub mod Limiter
