-- ===== src/Models/Plan.antt =====
-- internal/models/models.go: the plan of an installation.
use opendash.Prelude.{String, Bool, List}
use opendash.Prelude.Int.{ℤ}
use opendash.Models.Manifest.{ManifestPermission}

pub record PlannedPort : Type 0 where
  pub label : String
  pub container_port : ℤ
  pub host_port : ℤ
  pub kind : String

pub record PlannedVolume : Type 0 where
  pub name : String
  pub mount_path : String
  pub host_path : String

pub record PlannedConfig : Type 0 where
  pub key : String
  pub value : String
  pub source : String
  pub secret : Bool

pub record Risk : Type 0 where
  pub severity : String
  pub category : String
  pub description : String

pub record Conflict : Type 0 where
  pub kind : String
  pub target : String
  pub description : String

pub record InstallPlan : Type 0 where
  pub app_id : String
  pub name : String
  pub version : String
  pub images : List String
  pub ports : List PlannedPort
  pub volumes : List PlannedVolume
  pub environment : List PlannedConfig
  pub permissions : List ManifestPermission
  pub risks : List Risk
  pub conflicts : List Conflict
  pub project_name : String
  pub project_path : String
