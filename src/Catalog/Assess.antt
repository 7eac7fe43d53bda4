-- ===== src/Catalog/Assess.antt =====
-- internal/catalog/catalog.go: the risks of a manifest and its conflicts with installed applications. A Go
-- map is ranged over in the order of its list. `Library` holds the functions of Go's standard library that
-- read whole texts or paths.
use Prim.Native.String.{◌++◌ as ◌<>◌}
use opendash.Prelude.{
  String, Bool, true, false, ◌||◌, ◌&&◌, not, Option, none, some, List, [], ◌∷◌, ◌++◌, ◌==◌,
  contains, exists, int_text,
}
use opendash.Prelude.Int.{ℤ, pos, int_eq, int_ltb}
use opendash.Prelude.Maps.{text_key}
use opendash.Models.Dashboard.{AppEndpoint}
use opendash.Models.App.{AppInstance}
use opendash.Models.Manifest.{Manifest, ManifestService, ManifestInlineCompose}
use opendash.Models.Plan.{Risk, Conflict}
use opendash.Catalog.Ports.{parse_port_mapping, url_port}

pub record Library : Type 0 where
  -- strings.ToLower, the verb %q, sort.Strings, and filepath.Join of three parts
  pub to_lower : String → String
  pub quote : String → String
  pub sort_strings : List String → List String
  pub join : String → String → String → String

abbrev pub inline_services : Option ManifestInlineCompose → List (String × ManifestService)
inline_services none = []
inline_services (some c) = c.services

-- isHighRiskCapability
abbrev pub is_high_risk_capability : Library → String → Bool
is_high_risk_capability lib cap =
    exists (λ (c : String). lib.to_lower cap == c)
      ("net_admin" ∷ "sys_admin" ∷ "sys_ptrace" ∷ "sys_module" ∷ "dac_read_search" ∷ "dac_override"
        ∷ [])

-- imagePinned
abbrev pub image_pinned : String → Bool
image_pinned image = contains image "@sha256:"

abbrev pub risk : String → String → String → Risk
risk severity category description = record {
  severity = severity;
  category = category;
  description = description;
}

abbrev pub risk_if : Bool → Risk → List Risk → List Risk
risk_if true r rs = r ∷ rs
risk_if false r rs = rs

abbrev capability_risks : Library → String → List String → List Risk → List Risk
capability_risks lib name [] rest = rest
capability_risks lib name (cap ∷ caps) rest =
    risk_if (is_high_risk_capability lib cap)
      (risk "warning" "capability"
        ("service " <> (lib.quote name <> (" adds capability " <> lib.quote cap))))
      (capability_risks lib name caps rest)

abbrev pub service_risks : Library → String → ManifestService → List Risk
service_risks lib name svc =
    risk_if svc.privileged
      (risk "critical" "privileged" ("service " <> (lib.quote name <> " runs privileged")))
      (risk_if (svc.network_mode == "host")
        (risk "critical" "network"
          ("service " <> (lib.quote name <> " uses host network namespace")))
        (capability_risks lib name svc.cap_add (
          risk_if (svc.user == "root" || svc.user == "0")
            (risk "warning" "user" ("service " <> (lib.quote name <> " runs as root")))
            (risk_if (not (image_pinned svc.image))
              (risk "warning" "image" (
                "service "
                <> (lib.quote name
                    <> (" image " <> (lib.quote svc.image <> " is not pinned to a digest")))))
              []))))

abbrev pub services_risks : Library → List (String × ManifestService) → List Risk
services_risks lib [] = []
services_risks lib ((name, svc) ∷ rest) = service_risks lib name svc ++ services_risks lib rest

-- evaluateRisks
unfoldable pub evaluate_risks : Library → Manifest → List Risk
unfolding exists contains
evaluate_risks lib m = services_risks lib (inline_services m.compose.inline)

abbrev conflict : String → String → String → Conflict
conflict kind target description = record {
  kind = kind;
  target = target;
  description = description;
}

abbrev pub conflict_if : Bool → Conflict → List Conflict → List Conflict
conflict_if true c cs = c ∷ cs
conflict_if false c cs = cs

abbrev pub installed_conflicts : Library → Manifest → List AppInstance → List Conflict
installed_conflicts lib m [] = []
installed_conflicts lib m (inst ∷ rest) =
    conflict_if (inst.catalog_id == m.id)
      (conflict "installed" inst.catalog_id
        (lib.quote m.id <> (" is already installed as " <> lib.quote inst.name)))
      (installed_conflicts lib m rest)

-- seenPorts: a port above zero of an endpoint of an instance
abbrev pub port_seen : ℤ → List AppInstance → Bool
port_seen port existing =
    exists
      (λ (inst : AppInstance).
        exists
          (λ (ep : AppEndpoint). int_ltb (pos 0) (url_port ep.url) && int_eq (url_port ep.url) port)
          inst.endpoints)
      existing

-- `hp, _, _ := ParsePortMapping(p)`: zero where it fails
abbrev pub host_port_of : Option (ℤ × ℤ) → ℤ
host_port_of none = pos 0
host_port_of (some (hp, cp)) = hp

abbrev pub ports_conflicts : List AppInstance → List String → List Conflict → List Conflict
ports_conflicts existing [] rest = rest
ports_conflicts existing (p ∷ ps) rest =
    let hp = host_port_of (parse_port_mapping p) in
    conflict_if (int_ltb (pos 0) hp && port_seen hp existing)
      (conflict "port" (int_text hp) ("host port " <> (int_text hp <> " is already in use")))
      (ports_conflicts existing ps rest)

abbrev pub services_conflicts : List AppInstance → List (String × ManifestService) → List Conflict
services_conflicts existing [] = []
services_conflicts existing ((name, svc) ∷ rest) =
    ports_conflicts existing svc.ports (services_conflicts existing rest)

-- evaluateConflicts
unfoldable pub evaluate_conflicts :
    Library → Manifest → String → String → List AppInstance → List Conflict
unfolding exists parse_port_mapping url_port
evaluate_conflicts lib m project path existing =
    installed_conflicts lib m existing
    ++ conflict_if (exists (λ (inst : AppInstance). inst.project_name == project) existing)
        (conflict "project" project
          ("project name " <> (lib.quote project <> " is already in use")))
        (conflict_if (exists (λ (inst : AppInstance). inst.install_path == path) existing)
          (conflict "path" path ("install path " <> (lib.quote path <> " is already in use")))
          (services_conflicts existing (inline_services m.compose.inline)))
