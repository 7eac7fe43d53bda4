-- ===== src/Models/Manifest.antt =====
-- internal/models/models.go and backups.go: the manifest of an application. A Go map is an association list
-- with one entry for each key.
use opendash.Prelude.{String, Bool, Option, List}
use opendash.Prelude.Int.{ℤ}
use opendash.Models.Json.{Float64, Json}
use opendash.Models.Status.{EndpointKind}

pub record ManifestHealthCheck : Type 0 where
  pub test : List String
  pub interval : String
  pub timeout : String
  pub retries : ℤ
  pub disable : Bool

pub record ManifestService : Type 0 where
  pub image : String
  pub container_name : String
  pub restart : String
  pub ports : List String
  pub volumes : List String
  pub environment : List (String × String)
  pub cap_add : List String
  pub cap_drop : List String
  pub privileged : Bool
  pub network_mode : String
  pub user : String
  pub depends_on : List String
  pub health_check : Option ManifestHealthCheck

pub record ManifestInlineCompose : Type 0 where
  pub services : List (String × ManifestService)
  pub networks : List (String × Json)
  pub volumes : List (String × Json)

pub record ManifestCompose : Type 0 where
  pub file : String
  pub inline : Option ManifestInlineCompose
  pub project_name : String
  pub main_service : String

pub record ManifestEndpoint : Type 0 where
  pub label : String
  pub port : ℤ
  pub path : String
  pub kind : EndpointKind

pub record ManifestStorage : Type 0 where
  pub name : String
  pub path : String
  pub default_size_gb : Float64

pub record ManifestSecret : Type 0 where
  pub name : String
  pub description : String
  pub required : Bool

pub record ManifestConfig : Type 0 where
  pub key : String
  pub label : String
  pub description : String
  pub default_value : String
  pub required : Bool
  pub secret : Bool

pub record ManifestPermission : Type 0 where
  pub kind : String
  pub description : String
  pub required : Bool

pub record ManifestUpgrade : Type 0 where
  pub migration_risk : String
  pub rollback_safe : Bool
  pub rollback_notes : String

pub record ManifestBackup : Type 0 where
  pub volumes : List String
  pub include_config : Bool
  pub pause_containers : Bool
  pub required : Bool
  pub migration_risk : String
  pub rollback_safe : Bool

pub record Manifest : Type 0 where
  pub id : String
  pub name : String
  pub version : String
  pub description : String
  pub category : String
  pub tags : List String
  pub icon : String
  pub website : String
  pub source : String
  pub maintainer : String
  pub license : String
  pub compose : ManifestCompose
  pub endpoints : List ManifestEndpoint
  pub storage : List ManifestStorage
  pub secrets : List ManifestSecret
  pub config : List ManifestConfig
  pub permissions : List ManifestPermission
  pub upgrade : Option ManifestUpgrade
  pub backup : Option ManifestBackup
