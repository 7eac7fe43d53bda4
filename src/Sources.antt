-- ===== src/Sources.antt =====
-- internal/sources: sources of manifests, and what an update changes.
pub mod Diff
pub mod Acknowledged
pub mod Service
mod Tests
