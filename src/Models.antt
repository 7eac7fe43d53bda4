-- ===== src/Models.antt =====
-- internal/models: the data of the program, one record for each struct, with every field.

pub mod Json
pub mod Time
pub mod Status
pub mod Dashboard
pub mod Manifest
pub mod Plan
pub mod App
pub mod Source
pub mod Backup
pub mod Runtime
