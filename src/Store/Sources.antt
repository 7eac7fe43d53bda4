-- ===== src/Store/Sources.antt =====
-- internal/store/sqlite.go: manifest sources.
use opendash.Prelude.{
  ℕ, String, Bool, false, ◌||◌, not, Option, none, some, List, ◌∷◌, Result, ok, err, map, ◌==◌,
  if◌then◌else◌, keep, exists, find_first, count_if, update_if,
}
use opendash.Models.Time.{Time, unix, from_unix}
use opendash.Models.Status.{SourceTrust}
use opendash.Models.Source.{ManifestSource}
use opendash.Sql.{pure, stmt, query, ◌>>=◌, ◌>>◌}
use opendash.Store.Rows.{
  InstanceRow, SourceRow, StoreDb, StoreError, source_not_found, source_id_not_found,
  database_failed, constraint_failed, Store,
}
use opendash.Store.Apps.{require_affected}
use opendash.Store.Operations.{update_sources}

abbrev pub source_row : Time → ManifestSource → SourceRow
source_row now s = record {
  id = s.id;
  source_url = s.source_url;
  owner = s.owner;
  repo = s.repo;
  path = s.path;
  ref = s.ref;
  commit_sha = s.commit_sha;
  manifest_json = s.manifest_json;
  checksum = s.checksum;
  trust = s.trust;
  created_at = unix now;
  updated_at = unix now;
}

-- scanManifestSource of a row
abbrev pub scan_source : SourceRow → ManifestSource
scan_source r = record {
  id = r.id;
  source_url = r.source_url;
  owner = r.owner;
  repo = r.repo;
  path = r.path;
  ref = r.ref;
  commit_sha = r.commit_sha;
  manifest_json = r.manifest_json;
  checksum = r.checksum;
  trust = r.trust;
  created_at = from_unix r.created_at;
  updated_at = from_unix r.updated_at;
}

unfoldable pub insert_source : SourceRow → StoreDb → Result StoreError (Unit {0}) × StoreDb
insert_source row db =
    if exists (λ (s : SourceRow). s.id == row.id || s.source_url == row.source_url) db.sources
    then (err constraint_failed, db)
    else (ok tt, record db { sources = row ∷ db.sources })

-- CreateManifestSource
unfoldable pub create_manifest_source : Time → ManifestSource → Store (Unit {0})
create_manifest_source now s = stmt database_failed (insert_source (source_row now s))

abbrev pub found_source : Option SourceRow → Result StoreError ManifestSource
found_source none = err source_not_found
found_source (some r) = ok (scan_source r)

-- GetManifestSource
unfoldable pub get_manifest_source : String → Store ManifestSource
get_manifest_source id =
    query database_failed
      (λ db. found_source (find_first (λ (s : SourceRow). s.id == id) db.sources))

-- GetManifestSourceByURL
unfoldable pub get_manifest_source_by_url : String → Store ManifestSource
get_manifest_source_by_url url =
    query database_failed
      (λ db. found_source (find_first (λ (s : SourceRow). s.source_url == url) db.sources))

-- ListManifestSources; `newest_first` is the engine's ORDER BY updated_at DESC
unfoldable pub list_manifest_sources :
    (List SourceRow → List SourceRow) → Store (List ManifestSource)
list_manifest_sources newest_first =
    query database_failed (λ db. ok (map scan_source (newest_first db.sources)))

abbrev pub points_to : String → Option String → Bool
points_to id none = false
points_to id (some s) = s == id

-- DELETE FROM manifest_sources WHERE id=?, with ON DELETE SET NULL in app_instances
unfoldable pub delete_source : String → StoreDb → Result StoreError ℕ × StoreDb
delete_source id db = (
  ok (count_if (λ (s : SourceRow). s.id == id) db.sources),
  record db {
    sources = keep (λ (s : SourceRow). not (s.id == id)) db.sources;
    instances =
        update_if (λ (r : InstanceRow). points_to id r.source_id)
          (λ r. record r { source_id = none }) db.instances;
  },
)

-- DeleteManifestSource
unfoldable pub delete_manifest_source : String → Store (Unit {0})
delete_manifest_source id = do
  affected ← stmt database_failed (delete_source id)
  require_affected (source_id_not_found id) affected

-- UpdateManifestSourceTrust
unfoldable pub update_manifest_source_trust : Time → String → SourceTrust → Store (Unit {0})
update_manifest_source_trust now id trust = do
  stmt database_failed
      (update_sources (λ s. s.id == id) (λ s. record s { trust = trust; updated_at = unix now }))
  pure tt

-- UpdateManifestSourceManifest
unfoldable pub update_manifest_source_manifest : Time → ManifestSource → Store (Unit {0})
update_manifest_source_manifest now source = do
  stmt database_failed (
      update_sources (λ s. s.id == source.id)
        (λ s. record s {
          commit_sha = source.commit_sha;
          manifest_json = source.manifest_json;
          checksum = source.checksum;
          trust = source.trust;
          updated_at = unix now;
        }))
  pure tt
