-- ===== src/Catalog/Plan.antt =====
-- internal/catalog/catalog.go: the plan of an installation. A Go map is ranged over in the order of its
-- list.
pub mod Config
pub mod Conflicts
use Prim.Native.String.{◌++◌ as ◌<>◌}
use opendash.Prelude.{
  ℕ, String, Bool, true, false, ◌||◌, ◌&&◌, not, Option, none, some, List, [], ◌∷◌, ◌++◌, map,
  Result, ok, err, ◌==◌, if◌then◌else◌, trim_space, contains, exists, keep, int_text,
}
use opendash.Prelude.Int.{ℤ, pos, int_eq, int_ltb}
use opendash.Prelude.Maps.{get, put, text_key}
use opendash.Models.Status.{EndpointKind}
use opendash.Models.Dashboard.{AppEndpoint}
use opendash.Models.App.{AppInstance}
use opendash.Models.Manifest.{
  Manifest, ManifestService, ManifestInlineCompose, ManifestStorage, ManifestConfig,
  ManifestEndpoint, ManifestPermission, ManifestSecret,
}
use opendash.Models.Plan.{PlannedPort, PlannedVolume, PlannedConfig, Risk, Conflict, InstallPlan}
use opendash.Catalog.Ports.{parse_port_mapping, url_port}
use opendash.Catalog.Assess.{
  Library, inline_services, risk_if, evaluate_risks, evaluate_conflicts, risk,
}
use opendash.Catalog.Validate.{ManifestError, validate_manifest}

pub data PlanError : Type 0 where
  invalid : ManifestError → PlanError
  config_required : String → PlanError

abbrev pub project_name_prefix : String
project_name_prefix = "opendash-"

-- DefaultProjectName
abbrev pub default_project_name : Manifest → String
default_project_name m =
    if m.compose.project_name == "" then project_name_prefix <> m.id else m.compose.project_name

abbrev pub install_path : Library → String → Manifest → String
install_path lib apps_root m = lib.join apps_root "apps" m.id

abbrev pub volume_name : Library → String → String → String
volume_name lib app_id name = project_name_prefix <> (app_id <> ("-" <> lib.to_lower name))

abbrev pub or_default : String → Option String → String
or_default d none = d
or_default d (some v) = v

-- the value of a setting: the override, if there is one
abbrev pub config_value : List (String × String) → ManifestConfig → String
config_value overrides cfg = or_default cfg.default_value (get cfg.key overrides)

abbrev pub planned_config : String → ManifestConfig → PlannedConfig
planned_config value cfg = record {
  key = cfg.key;
  value = value;
  source = cfg.label;
  secret = cfg.secret;
}

abbrev pub Settings : Type 0
Settings = List (String × String) × List PlannedConfig

-- the loop of ApplyConfig: the values and the plan so far
abbrev pub config_loop :
    List (String × String) → List ManifestConfig → Settings → Result PlanError Settings
config_loop overrides [] acc = ok acc
config_loop overrides (cfg ∷ cfgs) (values, planned) =
    let value = config_value overrides cfg in
    let rest =
      config_loop overrides cfgs
        (put cfg.key value values, planned ++ (planned_config value cfg ∷ [])) in
    if cfg.required && trim_space value == "" then err (config_required cfg.key) else rest

-- ApplyConfig
unfoldable pub apply_config : Manifest → List (String × String) → Result PlanError Settings
unfolding get put trim_space
apply_config m overrides = config_loop overrides m.config ([], [])

abbrev kind_text : EndpointKind → String
kind_text EndpointKind.web = "web"
kind_text EndpointKind.api = "api"
kind_text EndpointKind.tcp = "tcp"
kind_text EndpointKind.udp = "udp"
kind_text (EndpointKind.other s) = s

abbrev planned_port : ManifestEndpoint → PlannedPort
planned_port ep = record {
  label = ep.label;
  container_port = ep.port;
  host_port = pos 0;
  kind = kind_text ep.kind;
}

abbrev planned_volume : Library → Manifest → ManifestStorage → PlannedVolume
planned_volume lib m st = record {
  name = volume_name lib m.id st.name;
  mount_path = st.path;
  host_path = volume_name lib m.id st.name;
}

-- the images of the services, each once
abbrev pub add_image : String → List String → List String
add_image image images =
    if exists (λ (i : String). i == image) images then images else image ∷ images

abbrev pub images_of : List (String × ManifestService) → List String
images_of [] = []
images_of ((name, svc) ∷ rest) = add_image svc.image (images_of rest)

abbrev permission_risks : List ManifestPermission → List Risk
permission_risks [] = []
permission_risks (p ∷ ps) =
    risk_if p.required (risk "warning" p.kind p.description) (permission_risks ps)

abbrev planned_secret : List (String × String) → ManifestSecret → PlannedConfig
planned_secret values sec = record {
  key = sec.name;
  value = or_default "" (get sec.name values);
  source = sec.description;
  secret = true;
}

abbrev pub plan_of : Library → Manifest → String → List AppInstance → Settings → InstallPlan
plan_of lib m apps_root existing (values, planned) = record {
  app_id = m.id;
  name = m.name;
  version = m.version;
  images = lib.sort_strings (images_of (inline_services m.compose.inline));
  ports = map planned_port m.endpoints;
  volumes = map (planned_volume lib m) m.storage;
  environment = planned ++ map (planned_secret values) m.secrets;
  permissions = m.permissions;
  risks = evaluate_risks lib m ++ permission_risks m.permissions;
  conflicts =
      evaluate_conflicts lib m (default_project_name m) (install_path lib apps_root m) existing;
  project_name = default_project_name m;
  project_path = install_path lib apps_root m;
}

abbrev planned_result :
    Library
    → Manifest
    → String
    → List AppInstance
    → Result PlanError Settings
    → Result PlanError InstallPlan
planned_result lib m apps_root existing (err e) = err e
planned_result lib m apps_root existing (ok s) = ok (plan_of lib m apps_root existing s)

abbrev when_valid :
    Result ManifestError (Unit {0}) → Result PlanError InstallPlan → Result PlanError InstallPlan
when_valid (err e) r = err (invalid e)
when_valid (ok u) r = r

-- BuildInstallPlan
unfoldable pub build_install_plan :
    Library
    → Manifest
    → String
    → List (String × String)
    → List AppInstance
    → Result PlanError InstallPlan
unfolding apply_config evaluate_risks evaluate_conflicts validate_manifest
build_install_plan lib m apps_root overrides existing =
    when_valid (validate_manifest m)
      (planned_result lib m apps_root existing (apply_config m overrides))
