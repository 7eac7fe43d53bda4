-- ===== src/Catalog/Compose.antt =====
-- internal/catalog/compose.go: the environment file and the Compose document of an application. What the
-- file system answers, and functions of Go's library that read whole texts or paths, are arguments.
-- Reading the document from its own JSON gives a copy of it.
pub mod Inline
mod OneLine
pub mod Lines
pub mod Mounts
pub mod Named
mod Tests
use Prim.Native.String.{◌++◌ as ◌<>◌}
use Prim.Native.Char.{code}
use opendash.Prelude.{
  ℕ, String, Bool, true, false, ◌||◌, ◌&&◌, not, Option, none, some, List, [], ◌∷◌, ◌++◌, map,
  Result, ok, err, leb, nat_eq, ◌==◌, if◌then◌else◌, split, int_text, keep, has_prefix, trim_prefix,
  atoi,
}
use opendash.Prelude.Int.{ℤ, pos}
use opendash.Prelude.Maps.{get, put, text_key, int_key}
use opendash.Prelude.Replace.{replace_all, replace_from}
use opendash.Models.Manifest.{Manifest, ManifestService, ManifestInlineCompose, ManifestSecret}
use opendash.Models.Plan.{PlannedPort, PlannedVolume, InstallPlan}
use opendash.Catalog.Allocate.{PortMap}

abbrev pub Texts : Type 0
Texts = List (String × String)

-- [A-Z_]
abbrev is_env_start : ℕ → Bool
is_env_start c = (leb b'A' c && leb c b'Z') || nat_eq c b'_'

-- [A-Z0-9_]*
abbrev pub is_env_rest : String → Bool
is_env_rest String.[] = true
is_env_rest (String.◌∷◌ c s) =
    (is_env_start (code c) || (leb b'0' (code c) && leb (code c) b'9')) && is_env_rest s

-- envKeyPattern
abbrev pub is_env_key : String → Bool
is_env_key String.[] = false
is_env_key (String.◌∷◌ c s) = is_env_start (code c) && is_env_rest s

-- strings.Join
abbrev pub join_with : String → List String → String
join_with sep [] = ""
join_with sep (s ∷ []) = s
join_with sep (s ∷ t ∷ rest) = s <> (sep <> join_with sep (t ∷ rest))

-- strings.Join(strings.Split(v, "\n"), "\\n")
unfoldable pub escape : String → String
unfolding split
escape v = join_with "\\n" (split b'\n' v)

-- sanitizeEnvKey
unfoldable pub sanitize_env_key : String → String
unfolding replace_from
sanitize_env_key s = replace_all (replace_all s "-" "_") " " "_"

-- volumeEnvKey; `to_upper` is strings.ToUpper
unfoldable pub volume_env_key : (String → String) → String → String
unfolding sanitize_env_key
volume_env_key to_upper name = "OPENDASH_APP_VOLUME_" <> to_upper (sanitize_env_key name)

-- portEnvKey
unfoldable pub port_env_key : ℤ → String
port_env_key port = "OPENDASH_APP_PORT_" <> int_text port

-- PortFromEnvName
unfoldable pub port_from_env_name : String → Option ℤ
unfolding has_prefix trim_prefix atoi
port_from_env_name key =
    if has_prefix key "OPENDASH_APP_PORT_"
    then atoi (trim_prefix key "OPENDASH_APP_PORT_")
    else none

pub data ComposeError : Type 0 where
  directory_failed read_failed : ComposeError
  invalid_env_key invalid_secret_env_key : String → ComposeError

-- "%s=%s", a line of the file without its end
abbrev pub line : String → String → String
line key value = key <> ("=" <> value)

abbrev pub or_empty : Option String → String
or_empty none = ""
or_empty (some v) = v

abbrev pub or_no_port : Option ℤ → ℤ
or_no_port none = pos 0
or_no_port (some p) = p

abbrev pub ahead : String → Result ComposeError (List String) → Result ComposeError (List String)
ahead l (ok ls) = ok (l ∷ ls)
ahead l (err e) = err e

-- the loop over the settings
abbrev pub config_lines : Texts → Result ComposeError (List String)
config_lines [] = ok []
config_lines ((key, value) ∷ values) =
    let rest = ahead (line key (escape value)) (config_lines values) in
    if not (is_env_key key) then err (invalid_env_key key) else rest

-- the loop over the secrets
abbrev pub secret_lines : Texts → List ManifestSecret → Result ComposeError (List String)
secret_lines values [] = ok []
secret_lines values (sec ∷ secs) =
    let rest =
      ahead (line sec.name (escape (or_empty (get sec.name values)))) (secret_lines values secs) in
    if not (is_env_key sec.name) then err (invalid_secret_env_key sec.name) else rest

abbrev pub volume_line : (String → String) → PlannedVolume → String
volume_line to_upper vol = line (volume_env_key to_upper vol.name) vol.host_path

abbrev pub port_line : PortMap → PlannedPort → String
port_line host_ports port =
    line (port_env_key port.container_port)
      (int_text (or_no_port (get port.container_port host_ports)))

abbrev pub first_lines : Manifest → InstallPlan → String → List String
first_lines m plan path =
    line "OPENDASH_APP_ID" m.id
    ∷ line "OPENDASH_PROJECT_NAME" plan.project_name
    ∷ line "OPENDASH_INSTALL_PATH" path
    ∷ []

abbrev pub runtime_lines : (String → String) → InstallPlan → PortMap → List String
runtime_lines to_upper plan host_ports =
    map (volume_line to_upper) plan.volumes ++ map (port_line host_ports) plan.ports

abbrev pub env_parts :
    List String
    → List String
    → Result ComposeError (List String)
    → Result ComposeError (List String)
env_parts first last (err e) = err e
env_parts first last (ok middle) = ok (first ++ (middle ++ last))

abbrev pub both_lines :
    Result ComposeError (List String)
    → Result ComposeError (List String)
    → Result ComposeError (List String)
both_lines (err e) b = err e
both_lines (ok a) (err e) = err e
both_lines (ok a) (ok b) = ok (a ++ b)

-- the lines of the environment file, in the order in which they are written
unfoldable pub env_lines :
    (String → String)
    → Manifest
    → InstallPlan
    → PortMap
    → Texts
    → String
    → Result ComposeError (List String)
unfolding get escape volume_env_key port_env_key
env_lines to_upper m plan host_ports values path =
    env_parts (first_lines m plan path) (runtime_lines to_upper plan host_ports)
      (both_lines (config_lines values) (secret_lines values m.secrets))

-- the builder's text
unfoldable pub env_text : List String → String
env_text [] = ""
env_text (l ∷ ls) = l <> ("\n" <> env_text ls)
