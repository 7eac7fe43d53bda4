-- ===== src/Models/Dashboard.antt =====
-- internal/models/models.go: what the dashboard shows.
use opendash.Prelude.{String, Bool, List}
use opendash.Prelude.Int.{ℤ}
use opendash.Models.Json.{Float64}
use opendash.Models.Time.{Time}
use opendash.Models.Status.{
  ProtectionStatus, HealthStatus, AppStatus, EndpointKind, ProtectionCategory, Severity,
  ActivityType, SourceTrust,
}

pub record SystemSummary : Type 0 where
  pub apps_running : ℤ
  pub apps_total : ℤ
  pub protection_status : ProtectionStatus
  pub updates_available : ℤ
  pub storage_used_gb : Float64
  pub storage_total_gb : Float64
  pub cpu_percent : Float64
  pub memory_percent : Float64
  pub uptime_seconds : ℤ
  pub health : HealthStatus
  pub demo_data : Bool

pub record AttentionItem : Type 0 where
  pub id : String
  pub severity : Severity
  pub title : String
  pub description : String
  pub timestamp : Time
  pub action_label : String
  pub action_route : String
  pub dismissed : Bool

pub record AppEndpoint : Type 0 where
  pub label : String
  pub url : String
  pub kind : EndpointKind

pub record AppService : Type 0 where
  pub name : String
  pub status : AppStatus
  pub cpu_percent : Float64
  pub memory_mb : Float64

pub record AppStorageVolume : Type 0 where
  pub name : String
  pub mount_path : String
  pub used_gb : Float64
  pub total_gb : Float64

pub record InstalledApp : Type 0 where
  pub id : String
  pub name : String
  pub icon : String
  pub description : String
  pub status : AppStatus
  pub health : HealthStatus
  pub version : String
  pub latest_version : String
  pub update_available : Bool
  pub trust : SourceTrust
  pub category : String
  pub endpoints : List AppEndpoint
  pub services : List AppService
  pub storage : List AppStorageVolume
  pub updated_at : Time
  pub installed_at : Time

pub record CatalogApp : Type 0 where
  pub id : String
  pub name : String
  pub icon : String
  pub description : String
  pub category : String
  pub version : String
  pub installed : Bool
  pub trust : SourceTrust

pub record ProtectionRule : Type 0 where
  pub id : String
  pub name : String
  pub enabled : Bool
  pub category : ProtectionCategory
  pub status : HealthStatus
  pub description : String

pub record ProtectionOverview : Type 0 where
  pub status : ProtectionStatus
  pub rules : List ProtectionRule
  pub threats_blocked24h : ℤ
  pub last_scan_at : Time
  pub vpn_connected : Bool
  pub firewall_active : Bool
  pub dns_filtering_active : Bool

pub record ActivityEvent : Type 0 where
  pub id : String
  pub type : ActivityType
  pub title : String
  pub description : String
  pub timestamp : Time
  pub severity : Severity
