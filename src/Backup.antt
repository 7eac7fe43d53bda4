-- ===== src/Backup.antt =====
-- internal/backup: backups of the volumes of applications.
pub mod Retention
pub mod Kept
mod Tests
