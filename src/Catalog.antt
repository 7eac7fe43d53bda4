-- ===== src/Catalog.antt =====
-- internal/catalog/catalog.go: manifests and installation plans.
pub mod Ports
pub mod Validate
pub mod Assess
pub mod Plan
pub mod Allocate
pub mod Compose
pub mod Tests
