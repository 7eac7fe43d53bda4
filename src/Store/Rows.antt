-- ===== src/Store/Rows.antt =====
-- internal/store/migrations.sql: the tables of the store. A JSON column holds the value that
-- encoding/json reads back, a nullable column an `Option`, and a time its Unix seconds.
use opendash.Prelude.{ℕ, String, Bool, Option, List, []}
use opendash.Prelude.Int.{ℤ}
use opendash.Models.Status.{
  AppInstanceStatus, HealthStatus, OperationKind, OperationStatus, SourceTrust, BackupStatus,
}
use opendash.Models.Dashboard.{AppEndpoint, AppStorageVolume}
use opendash.Models.Manifest.{Manifest}
use opendash.Sql.{Sql}

-- CREATE TABLE app_instances, with the column of migration 3
pub record InstanceRow : Type 0 where
  pub id : String
  pub catalog_id : String
  pub source_id : Option String
  pub name : String
  pub version : String
  pub project_name : String
  pub install_path : String
  pub compose_path : String
  pub status : AppInstanceStatus
  pub health : HealthStatus
  pub endpoints_json : List AppEndpoint
  pub storage_json : List AppStorageVolume
  pub created_at : ℕ
  pub updated_at : ℕ

-- CREATE TABLE operations
pub record OperationRow : Type 0 where
  pub id : String
  pub app_id : String
  pub kind : OperationKind
  pub status : OperationStatus
  pub error : String
  pub output : String
  pub created_at : ℕ
  pub updated_at : ℕ

-- CREATE TABLE revisions
pub record RevisionRow : Type 0 where
  pub id : String
  pub app_id : String
  pub manifest_json : Manifest
  pub config_json : String
  pub compose_path : String
  pub created_at : ℕ

-- CREATE TABLE manifest_sources
pub record SourceRow : Type 0 where
  pub id : String
  pub source_url : String
  pub owner : String
  pub repo : String
  pub path : String
  pub ref : String
  pub commit_sha : String
  pub manifest_json : String
  pub checksum : String
  pub trust : SourceTrust
  pub created_at : ℕ
  pub updated_at : ℕ

-- CREATE TABLE backup_jobs
pub record JobRow : Type 0 where
  pub id : String
  pub app_id : String
  pub status : BackupStatus
  pub error : Option String
  pub created_at : ℕ
  pub updated_at : ℕ

-- CREATE TABLE backup_archives
pub record ArchiveRow : Type 0 where
  pub id : String
  pub job_id : String
  pub app_id : String
  pub path : String
  pub size : ℤ
  pub sha256 : String
  pub manifest_sha256 : String
  pub created_at : ℕ
  pub verified_at : Option ℕ
  pub integrity_ok : Option Bool

-- CREATE TABLE backup_schedules
pub record ScheduleRow : Type 0 where
  pub id : String
  pub app_id : String
  pub enabled : Bool
  pub interval_hours : ℤ
  pub retention_count : ℤ
  pub retention_days : ℤ
  pub next_run_at : Option ℕ
  pub created_at : ℕ
  pub updated_at : ℕ

pub record StoreDb : Type 0 where
  pub instances : List InstanceRow
  pub operations : List OperationRow
  pub revisions : List RevisionRow
  pub sources : List SourceRow
  pub jobs : List JobRow
  pub archives : List ArchiveRow
  pub schedules : List ScheduleRow

pub data StoreError : Type 0 where
  -- the texts that fmt.Errorf makes, with the id in them
  app_not_found operation_not_found revision_not_found source_id_not_found schedule_not_found :
      String → StoreError
  -- the other errors of the package
  source_not_found source_changed : StoreError
  -- sql.ErrNoRows itself, a constraint of a table, and a failure of the database
  no_rows constraint_failed database_failed : StoreError

abbrev pub Store : Type 0 → Type 0
Store = Sql StoreError StoreDb

abbrev pub empty_store : StoreDb
empty_store = record {
  instances = [];
  operations = [];
  revisions = [];
  sources = [];
  jobs = [];
  archives = [];
  schedules = [];
}
