-- ===== src/Models/Backup.antt =====
-- internal/models/backups.go: backup jobs, archives and previews.
use opendash.Prelude.{String, Bool, Option, List}
use opendash.Prelude.Int.{ℤ}
use opendash.Models.Time.{Time}
use opendash.Models.Manifest.{Manifest}
use opendash.Models.App.{AppInstance}
use opendash.Models.Source.{ManifestSource}
use opendash.Models.Status.{BackupStatus}

pub record BackupJob : Type 0 where
  pub id : String
  pub app_id : String
  pub status : BackupStatus
  pub error : String
  pub created_at : Time
  pub updated_at : Time

pub record BackupArchive : Type 0 where
  pub id : String
  pub job_id : String
  pub app_id : String
  pub path : String
  pub size : ℤ
  pub sha256 : String
  pub manifest_sha256 : String
  pub created_at : Time
  pub verified_at : Time
  pub integrity_ok : Option Bool

pub record BackupSchedule : Type 0 where
  pub id : String
  pub app_id : String
  pub enabled : Bool
  pub interval_hours : ℤ
  pub retention_count : ℤ
  pub retention_days : ℤ
  pub next_run_at : Time
  pub created_at : Time
  pub updated_at : Time

pub record BackupMetadata : Type 0 where
  pub version : ℤ
  pub app : AppInstance
  pub manifest : Manifest
  pub source : Option ManifestSource
  pub compose : String
  pub environment : List (String × String)
  pub volumes : List String
  pub images : List String
  pub migration_risk : String
  pub rollback_safe : Bool
  pub created_at : Time

pub record RestorePreview : Type 0 where
  pub backup_id : String
  pub app_id : String
  pub volumes : List String
  pub images : List String
  pub manifest : Manifest
  pub compatible : Bool
  pub compatibility : List String
  pub migration_risk : String
  pub rollback_safe : Bool
  pub source_trusted : Bool
  pub integrity_ok : Bool

pub record VerificationResult : Type 0 where
  pub backup_id : String
  pub project_name : String
  pub healthy : Bool
  pub cleaned_up : Bool
  pub verified_at : Time
  pub error : String
