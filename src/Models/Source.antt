-- ===== src/Models/Source.antt =====
-- internal/models/sources.go and updates.go: manifest sources and the preview of an update.
use opendash.Prelude.{String, Bool, List}
use opendash.Models.Time.{Time}
use opendash.Models.Manifest.{Manifest, ManifestPermission}
use opendash.Models.Plan.{PlannedPort, PlannedVolume, PlannedConfig, Risk}
use opendash.Models.Status.{SourceTrust}

pub record ManifestSource : Type 0 where
  pub id : String
  pub source_url : String
  pub owner : String
  pub repo : String
  pub path : String
  pub ref : String
  pub commit_sha : String
  pub manifest_json : String
  pub checksum : String
  pub trust : SourceTrust
  pub created_at : Time
  pub updated_at : Time

pub record SourcePreview : Type 0 where
  pub source_url : String
  pub owner : String
  pub repo : String
  pub path : String
  pub ref : String
  pub commit_sha : String
  pub checksum : String
  pub trust : SourceTrust
  pub manifest : Manifest

pub record SourceListItem : Type 0 where
  pub id : String
  pub source_url : String
  pub owner : String
  pub repo : String
  pub path : String
  pub ref : String
  pub commit_sha : String
  pub checksum : String
  pub trust : SourceTrust
  pub app_id : String
  pub name : String
  pub version : String
  pub updated_at : Time

pub record PermissionDiff : Type 0 where
  pub kind : String
  pub description : String
  pub required : Bool
  pub state : String

pub record UpdateChange : Type 0 where
  pub kind : String
  pub target : String
  pub before : String
  pub after : String
  pub summary : String

pub record UpdatePreview : Type 0 where
  pub app_id : String
  pub current_version : String
  pub new_version : String
  pub current_commit : String
  pub new_commit : String
  pub new_checksum : String
  pub current_manifest : Manifest
  pub new_manifest : Manifest
  pub images : List String
  pub added_images : List String
  pub removed_images : List String
  pub ports : List PlannedPort
  pub added_ports : List PlannedPort
  pub removed_ports : List PlannedPort
  pub volumes : List PlannedVolume
  pub added_volumes : List PlannedVolume
  pub removed_volumes : List PlannedVolume
  pub environment : List PlannedConfig
  pub permissions : List ManifestPermission
  pub permission_diff : List PermissionDiff
  pub risks : List Risk
  pub changes : List UpdateChange
  pub can_update : Bool
  pub blocked_reasons : List String
  pub migration_disclosures : List String
  pub rollback_disclosures : List String
  pub requires_acknowledgement : Bool

pub record UpdateApplyRequest : Type 0 where
  pub commit_sha : String
  pub checksum : String
  pub confirmed : Bool
  pub acknowledged_risks : Bool
