-- ===== src/Catalog/Compose/Tests.antt =====
-- The theorems on ports and Compose files at a concrete application.
use opendash.Prelude.{
  ◌≡◌, ◌+◌, refl, String, false, none, some, List, [], ◌∷◌, ◌++◌, ok, split, int_text, arith, All,
  length, exists,
}
use opendash.Prelude.Int.{ℤ, pos}
use opendash.Prelude.Maps.{get, text_key, int_key}
use opendash.Models.Status.{EndpointKind}
use opendash.Models.Manifest.{Manifest, ManifestEndpoint}
use opendash.Models.Plan.{PlannedVolume, InstallPlan}
use opendash.Catalog.Allocate.{
  PortMap, Listeners, host_ports, fixed_ports, copied, reserve_host_ports, release_host_ports,
  is_reserved, find_loop,
}
use opendash.Catalog.Allocate.Unreserved.{IsPublished, host_ports-IsPublished}
use opendash.Catalog.Allocate.Disjoint.{reserved-disjoint}
use opendash.Catalog.Compose.{env_lines, env_text, volume_env_key, port_env_key, port_from_env_name}
use opendash.Catalog.Compose.Inline.{mount_all}
use opendash.Catalog.Compose.Lines.{split-env_lines}
use opendash.Catalog.Compose.Mounts.{mounts_at, mount_all-mounted}
use opendash.Catalog.Compose.Named.{port_from_env_name-port_env_key}
use opendash.Split.{lacks-Lacks}

abbrev endpoint : ℤ → ManifestEndpoint
endpoint port = record { label = ""; port = port; path = ""; kind = EndpointKind.web }

abbrev manifest : Manifest
manifest = record {
  id = "web";
  name = "Web";
  version = "1.0.0";
  description = "";
  category = "";
  tags = [];
  icon = "";
  website = "";
  source = "";
  maintainer = "";
  license = "";
  compose = record { file = "compose.yml"; inline = none; project_name = ""; main_service = "" };
  endpoints = endpoint (pos 80) ∷ endpoint (pos 443) ∷ [];
  storage = [];
  secrets = [];
  config = [];
  permissions = [];
  upgrade = none;
  backup = none;
}

abbrev same_port : Listeners
same_port n = some "40000"

-- The port of the first endpoint is not reserved while the second one gets its port: both have the same.
endpoints_share :
    (host_ports same_port [] manifest [] 0).0 ≡ ok ((pos 80, pos 40000) ∷ (pos 443, pos 40000) ∷ [])
unfolding host_ports get
endpoints_share = refl

-- A port that is not reserved yet is given to a second caller.
callers_share :
    ((find_loop same_port [] 20 0).0 ≡ ok (pos 40000))
    × ((find_loop same_port [] 20 1).0 ≡ ok (pos 40000))
unfolding find_loop
callers_share = (refl, refl)

release_runs :
    is_reserved
      (pos 1)
      (release_host_ports ((pos 80, pos 1) ∷ []) (reserve_host_ports ((pos 80, pos 1) ∷ []) []))
    ≡ false
unfolding is_reserved release_host_ports reserve_host_ports exists
release_runs = refl

host_ports-IsPublished_example :
    (fixed : PortMap) × (fixed_ports [] (copied []) ≡ ok fixed)
    × All
        (IsPublished fixed [] ((pos 80, pos 40000) ∷ (pos 443, pos 40000) ∷ []))
        manifest.endpoints
host_ports-IsPublished_example =
    host_ports-IsPublished same_port [] manifest []
      ((pos 80, pos 40000) ∷ (pos 443, pos 40000) ∷ []) 0 endpoints_share

abbrev fixed_manifest : Manifest
fixed_manifest = record manifest { endpoints = [] }

abbrev taken : PortMap
taken = (pos 80, pos 8080) ∷ []

fixed_runs :
    (host_ports same_port (reserve_host_ports taken []) fixed_manifest taken 0).0 ≡ ok taken
unfolding host_ports get
fixed_runs = refl

reserved-disjoint_example :
    (fixed : PortMap) × (fixed_ports [] (copied taken) ≡ ok fixed)
    × (get (pos 80) fixed ≡ some (pos 8080))
unfolding get
reserved-disjoint_example =
    reserved-disjoint same_port [] fixed_manifest taken taken taken 0 (pos 80) (pos 80) (pos 8080)
      fixed_runs refl refl

abbrev volume : PlannedVolume
volume = record {
  name = "opendash-web-data";
  mount_path = "/data";
  host_path = "opendash-web-data";
}

abbrev plan : InstallPlan
plan = record {
  app_id = "web";
  name = "Web";
  version = "1.0.0";
  images = [];
  ports = record { label = ""; container_port = pos 80; host_port = pos 0; kind = "web" } ∷ [];
  volumes = volume ∷ [];
  environment = [];
  permissions = [];
  risks = [];
  conflicts = [];
  project_name = "opendash-web";
  project_path = "/srv";
}

abbrev lines : List String
lines =
    "OPENDASH_APP_ID=web" ∷ "OPENDASH_PROJECT_NAME=opendash-web" ∷ "OPENDASH_INSTALL_PATH=/srv"
    ∷ "GREETING=a\\nEVIL=b" ∷ "OPENDASH_APP_VOLUME_opendash_web_data=opendash-web-data"
    ∷ "OPENDASH_APP_PORT_80=8080" ∷ []

lines_run :
    env_lines (λ s. s) manifest plan taken (("GREETING", "a\nEVIL=b") ∷ []) "/srv" ≡ ok lines
unfolding env_lines split int_text
lines_run = refl

split-env_lines_example :
    (split b'\n' (env_text lines) ≡ lines ++ ("" ∷ [])) × (length lines ≡ 3 + ((1 + 0) + (1 + 1)))
unfolding volume_env_key
split-env_lines_example =
    split-env_lines (λ s. s) manifest plan taken (("GREETING", "a\nEVIL=b") ∷ []) "/srv" lines
      (lacks-Lacks b'\n' "web" refl) (lacks-Lacks b'\n' "opendash-web" refl)
      (lacks-Lacks b'\n' "/srv" refl)
      ((
        (
          lacks-Lacks b'\n' "OPENDASH_APP_VOLUME_opendash_web_data" refl,
          lacks-Lacks b'\n' "opendash-web-data" refl,
        ),
        tt,
      ))
      lines_run

mount_all-mounted_example :
    mounts_at "/data" (mount_all (volume ∷ []) ("old:/data" ∷ "/data" ∷ "/etc" ∷ []))
    ≡ "opendash-web-data:/data" ∷ []
unfolding mount_all
mount_all-mounted_example =
    mount_all-mounted "/data" (volume ∷ []) ("old:/data" ∷ "/data" ∷ "/etc" ∷ [])
      ((lacks-Lacks b':' "opendash-web-data" refl, lacks-Lacks b':' "/data" refl), tt)

port_from_env_name-port_env_key_example :
    port_from_env_name (port_env_key (pos 65535)) ≡ some (pos 65535)
port_from_env_name-port_env_key_example = port_from_env_name-port_env_key 65535 (omega arith)
