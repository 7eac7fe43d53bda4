-- ===== src/Catalog/Tests.antt =====
-- The theorems on manifests and plans at a concrete manifest, and runs of the functions.
use opendash.Prelude.{
  ◌≡◌, refl, String, true, false, none, some, List, [], ◌∷◌, ok, err, split, map, arith, ◌==◌,
  if◌then◌else◌, trim_space, atoi, exists, All,
}
use opendash.Prelude.Int.{pos}
use opendash.Prelude.Maps.{get, text_key}
use opendash.Models.Status.{AppInstanceStatus, HealthStatus, SourceTrust}
use opendash.Models.App.{AppInstance}
use opendash.Models.Manifest.{Manifest, ManifestService, ManifestConfig}
use opendash.Models.Plan.{Risk, InstallPlan}
use opendash.Catalog.Ports.{parse_port_mapping, url_port}
use opendash.Catalog.Ports.Range.{HasPorts, parse-HasPorts}
use opendash.Catalog.Validate.{validate_manifest, id_matches, version_matches, duplicate_config}
use opendash.Catalog.Validate.Accepted.{IsAccepted, validate-IsAccepted}
use opendash.Catalog.Assess.{Library, evaluate_risks, evaluate_conflicts}
use opendash.Catalog.Plan.{apply_config, build_install_plan, plan_of}
use opendash.Catalog.Plan.Config.{
  setting_value, IsFilled, shown_setting, Answers, apply_config-values, apply_config-Answers,
}
use opendash.Catalog.Plan.Conflicts.{plan-create}
use opendash.Store.Rows.{empty_store}
use opendash.Store.Apps.{create_app_instance}

port_runs : parse_port_mapping "127.0.0.1:8080: 80" ≡ some (pos 8080, pos 80)
unfolding parse_port_mapping split atoi trim_space
port_runs = refl

port_zero : parse_port_mapping "0:80" ≡ none
unfolding parse_port_mapping split atoi trim_space
port_zero = refl

-- A mapping without a colon is not checked against the range.
port_alone : parse_port_mapping "70000" ≡ some (pos 0, pos 70000)
unfolding parse_port_mapping split atoi trim_space
port_alone = refl

url_runs : url_port "http://host:8080" ≡ pos 8080
unfolding url_port
url_runs = refl

url_bracket : url_port "https://[::1]:443" ≡ pos 443
unfolding url_port
url_bracket = refl

-- A URL with a path has no port that is found.
url_path : url_port "http://host:8080/ui" ≡ pos 0
unfolding url_port
url_path = refl

id_runs : id_matches "web-app" ≡ true
unfolding id_matches
id_runs = refl

id_dash : id_matches "web-" ≡ false
unfolding id_matches
id_dash = refl

version_runs : version_matches "1.20.3-rc.1+build" ≡ true
unfolding version_matches
version_runs = refl

version_short : version_matches "1.20" ≡ false
unfolding version_matches
version_short = refl

abbrev service : ManifestService
service = record {
  image = "nginx:1";
  container_name = "";
  restart = "";
  ports = "8080:80" ∷ [];
  volumes = [];
  environment = [];
  cap_add = "NET_ADMIN" ∷ [];
  cap_drop = [];
  privileged = true;
  network_mode = "";
  user = "";
  depends_on = [];
  health_check = none;
}

abbrev setting : String → ManifestConfig
setting key = record {
  key = key;
  label = "";
  description = "";
  default_value = "d";
  required = true;
  secret = false;
}

abbrev pub manifest : Manifest
manifest = record {
  id = "web";
  name = "Web";
  version = "1.1.0";
  description = "";
  category = "";
  tags = [];
  icon = "";
  website = "";
  source = "";
  maintainer = "";
  license = "";
  compose = record {
    file = "";
    inline = some (record { services = ("web", service) ∷ []; networks = []; volumes = [] });
    project_name = "";
    main_service = "";
  };
  endpoints = [];
  storage = [];
  secrets = [];
  config = setting "a" ∷ setting "b" ∷ [];
  permissions = [];
  upgrade = none;
  backup = none;
}

-- a library that knows one capital word, and joins to the last part
abbrev pub plain : Library
plain = record {
  to_lower = λ s. if s == "NET_ADMIN" then "net_admin" else s;
  quote = λ s. s;
  sort_strings = λ ss. ss;
  join = λ root apps id. id;
}

manifest_runs : validate_manifest manifest ≡ ok tt
unfolding validate_manifest parse_port_mapping trim_space atoi
manifest_runs = refl

duplicate_runs :
    validate_manifest (record manifest { config = setting "a" ∷ setting "b" ∷ setting "a" ∷ [] })
    ≡ err (duplicate_config "a")
unfolding validate_manifest parse_port_mapping trim_space atoi
duplicate_runs = refl

risks_run :
    map (λ (r : Risk). r.category) (evaluate_risks plain manifest)
    ≡ "privileged" ∷ "capability" ∷ "image" ∷ []
unfolding evaluate_risks
risks_run = refl

parse-HasPorts_example : HasPorts (split b':' "127.0.0.1:8080: 80") (pos 8080) (pos 80)
unfolding split
parse-HasPorts_example = parse-HasPorts "127.0.0.1:8080: 80" (omega arith) port_runs

validate-IsAccepted_example : IsAccepted manifest
validate-IsAccepted_example = validate-IsAccepted manifest manifest_runs

abbrev overrides : List (String × String)
overrides = ("b", "x") ∷ []

config_runs :
    apply_config manifest overrides
    ≡ ok (("a", "d") ∷ ("b", "x") ∷ [], map (shown_setting overrides) manifest.config)
unfolding apply_config get
config_runs = refl

apply_config-values_example :
    All (IsFilled overrides) manifest.config
    × All
        (λ (c : ManifestConfig).
          get c.key (("a", "d") ∷ ("b", "x") ∷ []) ≡ some (setting_value overrides c))
        manifest.config
    × (map (shown_setting overrides) manifest.config
        ≡ map (shown_setting overrides) manifest.config)
apply_config-values_example =
    apply_config-values manifest overrides ((refl, tt), (tt, tt)) config_runs

abbrev blank : List (String × String)
blank = ("a", " ") ∷ []

apply_config-Answers_example : Answers blank manifest.config (apply_config manifest blank)
apply_config-Answers_example = apply_config-Answers manifest blank

abbrev plan : InstallPlan
plan =
    plan_of plain manifest "/srv" []
      (("a", "d") ∷ ("b", "x") ∷ [], map (shown_setting overrides) manifest.config)

plan_runs : build_install_plan plain manifest "/srv" overrides [] ≡ ok plan
unfolding build_install_plan get parse_port_mapping trim_space atoi
plan_runs = refl

abbrev web : AppInstance
web = record {
  id = "app";
  catalog_id = "web";
  source_id = "";
  trust = SourceTrust.official;
  name = "Web";
  version = "1.1.0";
  project_name = "opendash-web";
  install_path = "web";
  compose_path = "";
  status = AppInstanceStatus.installing;
  health = HealthStatus.unknown;
  endpoints = [];
  storage = [];
  created_at = 0;
  updated_at = 0;
}

plan-create_example :
    (create_app_instance 0 web (record { db = empty_store; faults = [] })).0 ≡ ok tt
unfolding evaluate_conflicts exists trim_space
plan-create_example =
    plan-create plain manifest "/srv" overrides empty_store 0 web plan_runs refl refl refl refl refl
      refl
