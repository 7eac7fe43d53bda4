-- ===== src/Api/Install/Expected.antt =====
-- What an installation promises: the application, its revision and its operation.
use Prim.Native.String.{◌++◌ as ◌<>◌}
use opendash.Prelude.{
  ◌≡◌, String, Bool, true, false, ◌||◌, some, List, [], ◌∷◌, ok, ◌==◌, if◌then◌else◌, nat_eq,
  length, map, int_text,
}
use opendash.Prelude.Maps.{get, int_key}
use opendash.Models.Status.{
  AppInstanceStatus, HealthStatus, OperationStatus, OperationKind, EndpointKind, SourceTrust,
}
use opendash.Models.Dashboard.{AppEndpoint}
use opendash.Models.Manifest.{Manifest, ManifestEndpoint}
use opendash.Models.Plan.{InstallPlan, PlannedVolume, PlannedConfig}
use opendash.Models.App.{AppInstance, Operation, Revision}
use opendash.Store.Rows.{StoreDb}
use opendash.Store.Apps.{scan_instance, instance_row}
use opendash.Store.Operations.{operation_row, revision_row}
use opendash.Catalog.Plan.{build_install_plan, apply_config}
use opendash.Catalog.Allocate.{PortMap, Reserved, reserve_host_ports, host_ports}
use opendash.Catalog.Compose.{Texts, or_no_port}
use opendash.Catalog.Compose.Inline.{Rendered, render_compose_files}
use opendash.Api.Operations.{refused, accepted}
use opendash.Api.Install.{Installer, Loaded, Answer}
use opendash.Api.Install.Inserted.{IsReleased}

-- The refusals behind the creation of the application.
abbrev pub is_late : String → Bool
is_late code = code == "revision_error" || code == "operation_error"

abbrev pub Unchanged : Bool → StoreDb → StoreDb → Type 0
Unchanged true d0 d = Unit
Unchanged false d0 d = d ≡ d0

abbrev is_stream : EndpointKind → Bool
is_stream EndpointKind.udp = true
is_stream EndpointKind.tcp = true
is_stream _ = false

-- the endpoint as it is shown, at its host port on this host
abbrev pub shown_endpoint : PortMap → ManifestEndpoint → AppEndpoint
shown_endpoint ports ep = record {
  label = ep.label;
  url =
      if is_stream ep.kind
      then "127.0.0.1:" <> int_text (or_no_port (get ep.port ports))
      else "http://127.0.0.1:" <> (int_text (or_no_port (get ep.port ports)) <> ep.path);
  kind = ep.kind;
}

-- The application and its revision are those of the manifest that was loaded, as it was planned without conflicts, with the ports that
-- were allocated, the settings that were accepted and the files that were rendered.
abbrev pub IsPrepared :
    Installer
    → Reserved
    → String
    → Loaded
    → Texts
    → StoreDb
    → AppInstance
    → Revision
    → PortMap
    → Type 0
IsPrepared env reserved id loaded overrides d0 inst rev ports =
    (m : Manifest) × (source_id : String) × (plan : InstallPlan) × (values : Texts)
    × (planned : List PlannedConfig) × (files : Rendered) × (loaded ≡ some (m, source_id))
    × (build_install_plan env.library m env.apps_root overrides
          (map scan_instance (env.by_name d0.instances))
        ≡ ok plan)
    × (nat_eq (length plan.conflicts) 0 ≡ true)
    × ((host_ports env.listeners reserved m [] env.next_listener).0 ≡ ok ports)
    × (apply_config m overrides ≡ ok (values, planned))
    × (render_compose_files env.files m plan ports values plan.project_path ≡ ok files)
    × (inst ≡ record {
      id = env.app_id;
      catalog_id = id;
      source_id = source_id;
      trust = SourceTrust.other "";
      name = m.name;
      version = m.version;
      project_name = plan.project_name;
      install_path = plan.project_path;
      compose_path = files.0;
      status = AppInstanceStatus.installing;
      health = HealthStatus.unknown;
      endpoints = map (shown_endpoint ports) m.endpoints;
      storage =
          map
            (λ (vol : PlannedVolume). record {
              name = vol.name;
              mount_path = vol.mount_path;
              used_gb = 0;
              total_gb = 0;
            })
            plan.volumes;
      created_at = env.now;
      updated_at = env.now;
    })
    × (rev ≡ record {
      id = env.revision_id;
      app_id = env.app_id;
      manifest = m;
      config_json = env.encode_config values;
      compose_path = files.0;
      created_at = env.now;
    })

-- the pending operation of the installation
abbrev pub installing : Installer → Operation
installing env = record {
  id = env.operation_id;
  app_id = env.app_id;
  kind = OperationKind.install;
  status = OperationStatus.pending;
  error = "";
  output = "";
  created_at = env.now;
  updated_at = env.now;
}

-- the store with the application, its revision and its operation
abbrev pub installed : Installer → AppInstance → Revision → StoreDb → StoreDb
installed env inst rev d = record d {
  instances = instance_row env.now inst ∷ d.instances;
  revisions = revision_row env.now rev ∷ d.revisions;
  operations = operation_row env.now (installing env) ∷ d.operations;
}

-- A refusal reserves no port, and changes nothing unless it is late. An acceptance adds the application, its revision
-- and its pending operation as they were prepared, and reserves the ports of its endpoints.
abbrev pub IsOutcome :
    Installer → Reserved → String → Loaded → Texts → StoreDb → Answer → StoreDb → Type 0
IsOutcome env reserved id loaded overrides d0 (refused status code, reserved') d =
    IsReleased reserved reserved' × Unchanged (is_late code) d0 d
IsOutcome env reserved id loaded overrides d0 (accepted op inst, reserved') d =
    (ports : PortMap) × (rev : Revision) × IsPrepared env reserved id loaded overrides d0 inst rev
      ports
    × (op ≡ installing env)
    × (reserved' ≡ reserve_host_ports ports reserved)
    × (d ≡ installed env inst rev d0)
