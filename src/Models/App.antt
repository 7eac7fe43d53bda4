-- ===== src/Models/App.antt =====
-- internal/models/models.go: installed applications, their operations and revisions.
use opendash.Prelude.{String, List}
use opendash.Models.Time.{Time}
use opendash.Models.Dashboard.{AppEndpoint, AppStorageVolume}
use opendash.Models.Manifest.{Manifest}
use opendash.Models.Status.{
  HealthStatus, OperationStatus, OperationKind, AppInstanceStatus, SourceTrust,
}

pub record Operation : Type 0 where
  pub id : String
  pub app_id : String
  pub kind : OperationKind
  pub status : OperationStatus
  pub error : String
  pub output : String
  pub created_at : Time
  pub updated_at : Time

pub record AppInstance : Type 0 where
  pub id : String
  pub catalog_id : String
  pub source_id : String
  pub trust : SourceTrust
  pub name : String
  pub version : String
  pub project_name : String
  pub install_path : String
  pub compose_path : String
  pub status : AppInstanceStatus
  pub health : HealthStatus
  pub endpoints : List AppEndpoint
  pub storage : List AppStorageVolume
  pub created_at : Time
  pub updated_at : Time

pub record Revision : Type 0 where
  pub id : String
  pub app_id : String
  pub manifest : Manifest
  pub config_json : String
  pub compose_path : String
  pub created_at : Time
