-- ===== src/Api.antt =====
-- internal/api: the HTTP handlers.
pub mod Limiter
pub mod Sessions
pub mod Redact
pub mod Observe
pub mod Operations
pub mod Install
pub mod Update
mod Tests
