-- ===== src/Api/Install.antt =====
-- internal/api/catalog.go: InstallApp, over the store and the reserved ports. The manifest that is loaded, the
-- body's overrides, the file system, the listeners, the clock and the new ids are arguments.
pub mod Inserted
pub mod Expected
pub mod Outcome
mod Tests
use Prim.Native.String.{◌++◌ as ◌<>◌}
use opendash.Prelude.{
  ℕ, String, Bool, true, false, ◌||◌, not, Option, none, some, List, [], ◌∷◌, map, Result, ok, err,
  ◌==◌, if◌then◌else◌, int_text, length, nat_eq,
}
use opendash.Prelude.Int.{ℤ, pos}
use opendash.Prelude.Maps.{get, int_key}
use opendash.Models.Time.{Time}
use opendash.Models.Status.{
  AppInstanceStatus, HealthStatus, OperationKind, EndpointKind, SourceTrust,
}
use opendash.Models.Dashboard.{AppEndpoint, AppStorageVolume}
use opendash.Models.Manifest.{Manifest, ManifestEndpoint}
use opendash.Models.Plan.{InstallPlan, PlannedVolume, Conflict}
use opendash.Models.App.{AppInstance, Operation, Revision}
use opendash.Sql.{pure, try, ◌>>=◌, ◌>>◌}
use opendash.Store.Rows.{InstanceRow, OperationRow, StoreDb, StoreError, Store}
use opendash.Store.Apps.{list_app_instances, create_app_instance, delete_app_instance}
use opendash.Store.Operations.{create_revision, create_operation, get_active_operation_for_app}
use opendash.Catalog.Assess.{Library}
use opendash.Catalog.Plan.{PlanError, Settings, build_install_plan, apply_config}
use opendash.Catalog.Allocate.{
  PortMap, Reserved, Listeners, PortError, host_ports, reserve_host_ports, release_host_ports,
}
use opendash.Catalog.Compose.{Texts, ComposeError, or_no_port}
use opendash.Catalog.Compose.Inline.{Files, Rendered, render_compose_files}
use opendash.Api.Operations.{Reply, refused, accepted, new_operation, is_active_found}

pub record Installer : Type 0 where
  pub library : Library
  pub files : Files
  pub apps_root : String
  pub listeners : Listeners
  pub next_listener : ℕ
  pub by_name : List InstanceRow → List InstanceRow
  pub newest_first : List OperationRow → List OperationRow
  pub encode_config : Texts → String
  pub now : Time
  pub app_id : String
  pub revision_id : String
  pub operation_id : String

-- what loadManifestByID returns: the manifest and the id of its source
abbrev pub Loaded : Type 0
Loaded = Option (Manifest × String)

-- a reply, and the ports that are reserved then
abbrev pub Answer : Type 0
Answer = Reply × Reserved

abbrev is_plain : EndpointKind → Bool
is_plain EndpointKind.udp = true
is_plain EndpointKind.tcp = true
is_plain _ = false

-- endpointModels
abbrev pub endpoint_model : PortMap → ManifestEndpoint → AppEndpoint
endpoint_model ports ep =
    let hp = int_text (or_no_port (get ep.port ports)) in
    record {
      label = ep.label;
      url = if is_plain ep.kind then "127.0.0.1:" <> hp else "http://127.0.0.1:" <> (hp <> ep.path);
      kind = ep.kind;
    }

-- storageModels
abbrev pub storage_model : PlannedVolume → AppStorageVolume
storage_model vol = record {
  name = vol.name;
  mount_path = vol.mount_path;
  used_gb = 0;
  total_gb = 0;
}

abbrev pub new_instance :
    Installer → String → Manifest → String → InstallPlan → PortMap → String → AppInstance
new_instance env id m source_id plan ports compose_path = record {
  id = env.app_id;
  catalog_id = id;
  source_id = source_id;
  trust = SourceTrust.other "";
  name = m.name;
  version = m.version;
  project_name = plan.project_name;
  install_path = plan.project_path;
  compose_path = compose_path;
  status = AppInstanceStatus.installing;
  health = HealthStatus.unknown;
  endpoints = map (endpoint_model ports) m.endpoints;
  storage = map storage_model plan.volumes;
  created_at = env.now;
  updated_at = env.now;
}

abbrev pub new_revision : Installer → Manifest → Texts → String → Revision
new_revision env m values compose_path = record {
  id = env.revision_id;
  app_id = env.app_id;
  manifest = m;
  config_json = env.encode_config values;
  compose_path = compose_path;
  created_at = env.now;
}

abbrev pub install_operation : Installer → Operation
install_operation env = new_operation env.now env.operation_id env.app_id OperationKind.install

abbrev pub release : PortMap → Reserved → Reserved
release ports reserved = release_host_ports ports (reserve_host_ports ports reserved)

abbrev pub with_operation :
    Installer → AppInstance → PortMap → Reserved → Option (Unit {0}) → Store Answer
with_operation env inst ports reserved none =
    pure (refused 500 "operation_error", release ports reserved)
with_operation env inst ports reserved (some u) =
    pure (accepted (install_operation env) inst, reserve_host_ports ports reserved)

abbrev pub with_revision :
    Installer → AppInstance → PortMap → Reserved → Option (Unit {0}) → Store Answer
with_revision env inst ports reserved none =
    try (delete_app_instance env.app_id)
    >> pure (refused 500 "revision_error", release ports reserved)
with_revision env inst ports reserved (some u) =
    try (create_operation env.now (install_operation env))
    >>= with_operation env inst ports reserved

abbrev pub with_application :
    Installer → AppInstance → Revision → PortMap → Reserved → Option (Unit {0}) → Store Answer
with_application env inst rev ports reserved none =
    pure (refused 409 "already_installed", release ports reserved)
with_application env inst rev ports reserved (some u) =
    try (create_revision env.now rev) >>= with_revision env inst ports reserved

-- behind the reservation
abbrev pub with_rendered :
    Installer
    → String
    → Manifest
    → String
    → InstallPlan
    → PortMap
    → Texts
    → Reserved
    → Result ComposeError Rendered
    → Store Answer
with_rendered env id m source_id plan ports values reserved (err e) =
    pure (refused 500 "render_error", release ports reserved)
with_rendered env id m source_id plan ports values reserved (ok (path, text, env_text)) =
    let inst = new_instance env id m source_id plan ports path in
    try (create_app_instance env.now inst)
    >>= with_application env inst (new_revision env m values path) ports reserved

abbrev pub with_settings :
    Installer
    → String
    → Manifest
    → String
    → InstallPlan
    → PortMap
    → Reserved
    → Result PlanError Settings
    → Store Answer
with_settings env id m source_id plan ports reserved (err e) =
    pure (refused 400 "config_error", release ports reserved)
with_settings env id m source_id plan ports reserved (ok (values, planned)) =
    with_rendered env id m source_id plan ports values reserved
      (render_compose_files env.files m plan ports values plan.project_path)

abbrev pub with_ports :
    Installer
    → String
    → Manifest
    → String
    → Texts
    → InstallPlan
    → Reserved
    → Result PortError PortMap
    → Store Answer
with_ports env id m source_id overrides plan reserved (err e) =
    pure (refused 500 "port_allocation_failed", reserved)
with_ports env id m source_id overrides plan reserved (ok ports) =
    with_settings env id m source_id plan ports reserved (apply_config m overrides)

abbrev pub with_plan :
    Installer
    → String
    → Manifest
    → String
    → Texts
    → Reserved
    → Result PlanError InstallPlan
    → Store Answer
with_plan env id m source_id overrides reserved (err e) =
    pure (refused 400 "invalid_manifest", reserved)
with_plan env id m source_id overrides reserved (ok plan) =
    if not (nat_eq (length plan.conflicts) 0) then pure (refused 409 "conflict", reserved) else do
      active ← try (get_active_operation_for_app env.newest_first m.id)
      if is_active_found active
          then pure (refused 409 "operation_in_progress", reserved)
          else with_ports env id m source_id overrides plan reserved
              (host_ports env.listeners reserved m [] env.next_listener).0

abbrev pub with_existing :
    Installer
    → String
    → Manifest
    → String
    → Texts
    → Reserved
    → Option (List AppInstance)
    → Store Answer
with_existing env id m source_id overrides reserved none =
    pure (refused 500 "store_error", reserved)
with_existing env id m source_id overrides reserved (some existing) =
    with_plan env id m source_id overrides reserved
      (build_install_plan env.library m env.apps_root overrides existing)

abbrev pub with_manifest : Installer → String → Texts → Reserved → Loaded → Store Answer
with_manifest env id overrides reserved none = pure (refused 404 "not_found", reserved)
with_manifest env id overrides reserved (some (m, source_id)) =
    try (list_app_instances env.by_name) >>= with_existing env id m source_id overrides reserved

-- InstallApp
unfoldable pub install_app : Installer → String → Loaded → Texts → Reserved → Store Answer
unfolding get build_install_plan apply_config host_ports reserve_host_ports release_host_ports
    render_compose_files
install_app env id loaded overrides reserved =
    if id == ""
    then pure (refused 400 "missing_id", reserved)
    else with_manifest env id overrides reserved loaded
