-- ===== src/Models/Status.antt =====
-- internal/models/models.go, sources.go and backups.go: the string enumerations. A value that is none of
-- the named constants, which a JSON document or a database row may hold, is `other`.
use opendash.Prelude.{String}

pub data ProtectionStatus : Type 0 where
  armed monitoring degraded offline : ProtectionStatus
  other : String → ProtectionStatus

pub data HealthStatus : Type 0 where
  healthy warning critical unknown : HealthStatus
  other : String → HealthStatus

pub data AppStatus : Type 0 where
  running stopped updating error installing : AppStatus
  other : String → AppStatus

pub data EndpointKind : Type 0 where
  web api tcp udp : EndpointKind
  other : String → EndpointKind

pub data Severity : Type 0 where
  critical warning info success error : Severity
  other : String → Severity

pub data ActivityType : Type 0 where
  app system security update user : ActivityType
  other : String → ActivityType

pub data ProtectionCategory : Type 0 where
  firewall vpn dns ids backup : ProtectionCategory
  other : String → ProtectionCategory

pub data OperationStatus : Type 0 where
  pending running completed failed cancelled : OperationStatus
  other : String → OperationStatus

pub data OperationKind : Type 0 where
  install update start stop restart uninstall : OperationKind
  other : String → OperationKind

pub data AppInstanceStatus : Type 0 where
  installing running stopped error : AppInstanceStatus
  other : String → AppInstanceStatus

pub data SourceTrust : Type 0 where
  official reviewed user_trusted changed untrusted : SourceTrust
  other : String → SourceTrust

pub data BackupStatus : Type 0 where
  pending running completed failed : BackupStatus
  other : String → BackupStatus
