-- ===== src/Auth.antt =====
-- internal/auth: the administrator, password hashes and sessions.
pub mod Password
pub mod Service
pub mod Tests
