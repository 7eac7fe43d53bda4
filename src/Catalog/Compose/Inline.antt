-- ===== src/Catalog/Compose/Inline.antt =====
-- internal/catalog/compose.go: the Compose document that is rendered from the inline one of a manifest, and
-- RenderComposeFiles. A Go map is ranged over in the order of its list.
use Prim.Native.String.{◌++◌ as ◌<>◌}
use opendash.Prelude.{
  String, Bool, not, Option, none, some, List, [], ◌∷◌, ◌++◌, map, Result, ok, err, ◌==◌,
  if◌then◌else◌, split, int_text, keep,
}
use opendash.Prelude.Int.{ℤ, pos}
use opendash.Prelude.Maps.{get, put, text_key, int_key}
use opendash.Models.Json.{Json, object, no_fields}
use opendash.Models.Manifest.{Manifest, ManifestService, ManifestInlineCompose, ManifestSecret}
use opendash.Models.Plan.{PlannedPort, PlannedVolume, InstallPlan}
use opendash.Catalog.Ports.{parse_port_mapping}
use opendash.Catalog.Plan.{project_name_prefix}
use opendash.Catalog.Allocate.{PortMap}
use opendash.Catalog.Compose.{
  Texts, ComposeError, directory_failed, read_failed, or_no_port, env_lines, env_text,
}

abbrev path_of : List String → String
path_of (p ∷ []) = p
path_of (a ∷ p ∷ rest) = p
path_of [] = ""

-- containerPathFromVolumeSpec; a split has at least one part
unfoldable pub container_path_from_volume_spec : String → String
unfolding split
container_path_from_volume_spec spec = path_of (split b':' spec)

-- replaceVolumeForMountPath
unfoldable pub replace_volume_for_mount_path : List String → String → String → List String
unfolding keep container_path_from_volume_spec
replace_volume_for_mount_path existing mount_path spec =
    keep (λ v. not (container_path_from_volume_spec v == mount_path)) existing ++ (spec ∷ [])

abbrev or_text : String → String → String
or_text s d = if s == "" then d else s

-- svc.Environment[k] = v for each setting
abbrev put_all : Texts → Texts → Texts
put_all [] env = env
put_all ((k, v) ∷ values) env = put_all values (put k v env)

abbrev put_some : String → Option String → Texts → Texts
put_some k none env = env
put_some k (some v) env = put k v env

abbrev put_secrets : Texts → List ManifestSecret → Texts → Texts
put_secrets values [] env = env
put_secrets values (sec ∷ secs) env =
    put_secrets values secs (put_some sec.name (get sec.name values) env)

-- the service with its defaults and its environment
abbrev pub prepared : Manifest → Texts → String × ManifestService → String × ManifestService
prepared m values (name, svc) = (
  name,
  record svc {
    container_name = or_text svc.container_name (project_name_prefix <> (m.id <> ("-" <> name)));
    restart = or_text svc.restart "unless-stopped";
    environment = put_secrets values m.secrets (put_all values svc.environment);
  },
)

-- a mapping that cannot be parsed is kept at port 0
abbrev container_port : Option (ℤ × ℤ) → ℤ
container_port none = pos 0
container_port (some (hp, cp)) = cp

abbrev mapped_ports : List String → List (ℤ × String) → List (ℤ × String)
mapped_ports [] ports = ports
mapped_ports (p ∷ ps) ports = mapped_ports ps (put (container_port (parse_port_mapping p)) p ports)

abbrev loopback : PortMap → PlannedPort → String
loopback host_ports ep =
    "127.0.0.1:"
    <> (int_text (or_no_port (get ep.container_port host_ports))
        <> (":" <> int_text ep.container_port))

abbrev put_planned : PortMap → List PlannedPort → List (ℤ × String) → List (ℤ × String)
put_planned host_ports [] ports = ports
put_planned host_ports (ep ∷ eps) ports =
    put_planned host_ports eps (put ep.container_port (loopback host_ports ep) ports)

abbrev second : ℤ × String → String
second (cp, p) = p

-- the mounts of the planned volumes
unfoldable pub mount_all : List PlannedVolume → List String → List String
unfolding replace_volume_for_mount_path
mount_all [] mounts = mounts
mount_all (vol ∷ vols) mounts =
    mount_all vols (
      replace_volume_for_mount_path mounts vol.mount_path
        (vol.host_path <> (":" <> vol.mount_path)))

-- the service that gets the ports and the volumes
abbrev bound :
    (List String → List String) → InstallPlan → PortMap → ManifestService → ManifestService
bound sort_strings plan host_ports svc = record svc {
  ports = sort_strings (map second (put_planned host_ports plan.ports (mapped_ports svc.ports [])));
  volumes = mount_all plan.volumes svc.volumes;
}

abbrev first_name : List (String × ManifestService) → String
first_name [] = ""
first_name ((name, svc) ∷ services) = name

abbrev put_bound :
    (List String → List String)
    → InstallPlan
    → PortMap
    → String
    → Option ManifestService
    → List (String × ManifestService)
    → List (String × ManifestService)
put_bound sort_strings plan host_ports target none services = services
put_bound sort_strings plan host_ports target (some svc) services =
    put target (bound sort_strings plan host_ports svc) services

abbrev declare : Option Json → String → List (String × Json) → List (String × Json)
declare (some v) name volumes = volumes
declare none name volumes = put name (object no_fields) volumes

abbrev declare_all : List PlannedVolume → List (String × Json) → List (String × Json)
declare_all [] volumes = volumes
declare_all (vol ∷ vols) volumes =
    declare_all vols (declare (get vol.host_path volumes) vol.host_path volumes)

-- renderInlineCompose, before its document is encoded. The networks and the volumes are left out of the
-- document where there are none; `sort_strings` is sort.Strings.
unfoldable pub render_inline_compose :
    (List String → List String)
    → Manifest
    → ManifestInlineCompose
    → InstallPlan
    → PortMap
    → Texts
    → ManifestInlineCompose
unfolding get put mount_all parse_port_mapping int_text
render_inline_compose sort_strings m inline plan host_ports values =
    let services = map (prepared m values) inline.services in
    let target =
      if m.compose.main_service == "" then first_name inline.services else m.compose.main_service in
    record {
      services = put_bound sort_strings plan host_ports target (get target services) services;
      networks = inline.networks;
      volumes = declare_all plan.volumes inline.volumes;
    }

-- the library and the file system: sort.Strings, strings.ToUpper, filepath.Join of two parts,
-- filepath.Base, json.MarshalIndent of the document, os.MkdirAll's success, and os.ReadFile
pub record Files : Type 0 where
  pub sort_strings : List String → List String
  pub to_upper : String → String
  pub join : String → String → String
  pub base : String → String
  pub encode : ManifestInlineCompose → String
  pub make_directory : String → Bool
  pub read_file : String → Option String

-- the path and the text of the Compose file, and the text of the environment file
abbrev pub Rendered : Type 0
Rendered = String × String × String

abbrev read_compose : String → Option String → String → Result ComposeError Rendered
read_compose path none env = err read_failed
read_compose path (some text) env = ok (path, text, env)

abbrev render_compose :
    Files
    → Manifest
    → Option ManifestInlineCompose
    → InstallPlan
    → PortMap
    → Texts
    → String
    → String
    → Result ComposeError Rendered
render_compose fs m none plan host_ports values path env =
    read_compose (fs.join path (fs.base m.compose.file)) (fs.read_file m.compose.file) env
render_compose fs m (some inline) plan host_ports values path env = ok (
  fs.join path "compose.json",
  fs.encode (render_inline_compose fs.sort_strings m inline plan host_ports values),
  env,
)

abbrev render_files :
    Files
    → Manifest
    → InstallPlan
    → PortMap
    → Texts
    → String
    → Result ComposeError (List String)
    → Result ComposeError Rendered
render_files fs m plan host_ports values path (err e) = err e
render_files fs m plan host_ports values path (ok lines) =
    render_compose fs m m.compose.inline plan host_ports values path (env_text lines)

-- RenderComposeFiles
unfoldable pub render_compose_files :
    Files → Manifest → InstallPlan → PortMap → Texts → String → Result ComposeError Rendered
unfolding env_lines env_text render_inline_compose
render_compose_files fs m plan host_ports values path =
    if fs.make_directory path
    then render_files fs m plan host_ports values path
        (env_lines fs.to_upper m plan host_ports values path)
    else err directory_failed
