-- ===== src/Store.antt =====
-- internal/store: the SQLite store. Its tables in Rows, its operations in Apps, Operations, Sources and
-- Backups.
pub mod Rows
pub mod Apps
pub mod Operations
pub mod Sources
pub mod Backups
mod Keys
pub mod Requests
pub mod Consistent
pub mod Runs
pub mod Recovered
pub mod Applied
pub mod Stored
mod Tests
