-- ===== src/Api/Redact.antt =====
-- internal/api/catalog.go: the secrets of an application, and their removal from a text that is stored.
pub mod Absent
use Prim.Native.String.{len}
use opendash.Prelude.{
  String, Bool, ◌||◌, Option, none, some, List, [], ◌∷◌, Result, ok, err, ltb, nat_eq, leb, ◌==◌,
  if◌then◌else◌, length,
}
use opendash.Prelude.Maps.{get, put, text_key}
use opendash.Prelude.Replace.{replace_all, replace_from, mask}
use opendash.Models.Manifest.{ManifestConfig, ManifestSecret}
use opendash.Models.App.{Revision}
use opendash.Sql.{pure, try, ◌>>=◌}
use opendash.Store.Rows.{RevisionRow, Store}
use opendash.Store.Operations.{get_latest_revision}

-- a Go map[string]string
abbrev pub Texts : Type 0
Texts = List (String × String)

abbrev add_value : Option String → Texts → Texts
add_value none secrets = secrets
add_value (some v) secrets = if v == "" then secrets else put v "" secrets

abbrev config_secrets : Texts → List ManifestConfig → Texts → Texts
config_secrets values [] secrets = secrets
config_secrets values (cfg ∷ cfgs) secrets =
    config_secrets values cfgs
      (if cfg.secret then add_value (get cfg.key values) secrets else secrets)

abbrev named_secrets : Texts → List ManifestSecret → Texts → Texts
named_secrets values [] secrets = secrets
named_secrets values (sec ∷ secs) secrets =
    named_secrets values secs (add_value (get sec.name values) secrets)

-- the values are the keys of the map
abbrev pub secrets_of : Revision → Option Texts → Texts
secrets_of rev none = []
secrets_of rev (some values) =
    named_secrets values rev.manifest.secrets (config_secrets values rev.manifest.config [])

abbrev pub revision_secrets : (String → Option Texts) → Option Revision → Texts
revision_secrets decode none = []
revision_secrets decode (some rev) = secrets_of rev (decode rev.config_json)

-- secretValuesForApp; `decode` is json.Unmarshal into a map of texts
unfoldable pub secret_values_for_app :
    (List RevisionRow → List RevisionRow) → (String → Option Texts) → String → Store Texts
unfolding get put
secret_values_for_app newest_first decode app_id = do
  rev ← try (get_latest_revision newest_first app_id)
  pure (revision_secrets decode rev)

abbrev pub long_values : Texts → List String
long_values [] = []
long_values ((v, m) ∷ secrets) =
    let rest = long_values secrets in if leb 3 (len v) then v ∷ rest else rest

unfoldable pub redact_each : List String → String → String
unfolding replace_from
redact_each [] output = output
redact_each (v ∷ vs) output = redact_each vs (replace_all output v mask)

-- redactSecrets; `longest_first` is sort.Slice by length, which does not say how ties come
unfoldable pub redact_secrets : (List String → List String) → Texts → String → String
unfolding redact_each
redact_secrets longest_first secrets output =
    if nat_eq (length secrets) 0 || output == ""
    then output
    else redact_each (longest_first (long_values secrets)) output
