-- ===== src/Sources/Service/Tests.antt =====
-- The theorems on the service at a concrete source.
use opendash.Prelude.{
  ◌≡◌, refl, Bool, Result, ok, err, ◌==◌, find_first, keep, exists, true, false, Option, some, [],
  ◌∷◌,
}
use opendash.Models.Status.{AppInstanceStatus, HealthStatus, SourceTrust}
use opendash.Models.App.{AppInstance}
use opendash.Models.Source.{ManifestSource, UpdatePreview}
use opendash.Sql.{Conn, try, ◌>>=◌}
use opendash.Sql.Triple.{Outcome}
use opendash.Store.Rows.{InstanceRow, StoreDb, empty_store}
use opendash.Github.Url.{Url, parse_url}
use opendash.Catalog.Tests.{manifest, plain}
use opendash.Github.Url.Tests.{raw, url_library}
use opendash.Sources.Service.{
  SourceError, Resolved, ServiceLibrary, of_store, add, update_preview, update_preview_of,
}
use opendash.Catalog.Plan.{build_install_plan}
use opendash.Store.Operations.{get_latest_revision}
use opendash.Store.Apps.{list_app_instances}
use opendash.Store.Sources.{
  get_manifest_source, get_manifest_source_by_url, create_manifest_source, insert_source,
}
use opendash.Sources.Service.Updates.{IsOffer, IsPreviewed, update_preview-IsOffer}

abbrev pub library : ServiceLibrary
library = record {
  catalog = plain;
  urls = url_library;
  encode = λ m. m.id;
  decode = λ s. some manifest;
  decode_fields = λ s. manifest;
  decode_config = λ s. [];
  newest_revisions = λ rows. rows;
  newest_sources = λ rows. rows;
  by_name = λ rows. rows;
}

abbrev pub resolve : Url → Option Resolved
resolve u = some (record { commit = "c1"; checksum = "k1"; manifest = manifest })

abbrev start : Conn StoreDb
start = record { db = empty_store; faults = [] }

abbrev app : AppInstance
app = record {
  id = "app";
  catalog_id = "web";
  source_id = "src";
  trust = SourceTrust.official;
  name = "Web";
  version = "1.1.0";
  project_name = "opendash-web";
  install_path = "web";
  compose_path = "";
  status = AppInstanceStatus.running;
  health = HealthStatus.unknown;
  endpoints = [];
  storage = [];
  created_at = 0;
  updated_at = 0;
}

abbrev pub added : Conn StoreDb
added = (add library resolve 0 "src" raw true (record { db = empty_store; faults = [] })).1

abbrev app_row : InstanceRow
app_row = record {
  id = "app";
  catalog_id = "web";
  source_id = some "src";
  name = "Web";
  version = "1.1.0";
  project_name = "opendash-web";
  install_path = "web";
  compose_path = "";
  status = AppInstanceStatus.running;
  health = HealthStatus.unknown;
  endpoints_json = [];
  storage_json = [];
  created_at = 0;
  updated_at = 0;
}

-- The application of the source that was added, with a revision, at another commit.
abbrev pub offered : StoreDb
offered = record added.db {
  instances = app_row ∷ [];
  revisions =
      record {
        id = "rev";
        app_id = "app";
        manifest_json = manifest;
        config_json = "";
        compose_path = "";
        created_at = 0;
      }
      ∷ [];
}

abbrev pub moved : Url → Option Resolved
moved u = some (record { commit = "c2"; checksum = "k2"; manifest = manifest })

update_preview-IsOffer_example :
    Outcome
      (IsOffer library moved 0 "/srv" app offered)
      (λ _. IsPreviewed moved 0 app offered)
      (update_preview library moved 0 "/srv" app (record { db = offered; faults = [] })).0
      (update_preview library moved 0 "/srv" app (record { db = offered; faults = [] })).1.db
update_preview-IsOffer_example =
    update_preview-IsOffer library moved 0 "/srv" app (record { db = offered; faults = [] })

abbrev may_update : Result SourceError UpdatePreview → Bool
may_update (ok p) = p.can_update
may_update (err e) = false

offered_runs :
    may_update (update_preview library moved 0 "/srv" app (record { db = offered; faults = [] })).0
    ≡ true
unfolding update_preview update_preview_of build_install_plan get_manifest_source find_first
    of_store ◌>>=◌ add try get_manifest_source_by_url create_manifest_source insert_source
    get_latest_revision keep list_app_instances
offered_runs = refl

abbrev is_trusted_new : Result SourceError ManifestSource → Bool
is_trusted_new (ok src) = src.commit_sha == "c1"
is_trusted_new (err e) = false

added_runs : is_trusted_new (add library resolve 0 "src" raw true start).0 ≡ true
unfolding add parse_url create_manifest_source insert_source of_store ◌>>=◌ try
    get_manifest_source_by_url find_first exists
added_runs = refl
