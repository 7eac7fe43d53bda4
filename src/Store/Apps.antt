-- ===== src/Store/Apps.antt =====
-- internal/store/sqlite.go: installed applications.
use opendash.Prelude.{
  ℕ, String, Bool, true, ◌||◌, ◌&&◌, not, Option, none, some, List, ◌∷◌, Result, ok, err, map,
  nat_eq, ◌==◌, if◌then◌else◌, keep, exists, find_first, count_if, update_if,
}
use opendash.Models.Time.{Time, unix, from_unix}
use opendash.Models.Status.{AppInstanceStatus, HealthStatus, SourceTrust}
use opendash.Models.Dashboard.{AppEndpoint}
use opendash.Models.App.{AppInstance}
use opendash.Sql.{pure, raise, stmt, query, ◌>>=◌}
use opendash.Store.Rows.{
  InstanceRow, SourceRow, OperationRow, RevisionRow, JobRow, ArchiveRow, ScheduleRow, StoreDb,
  StoreError, app_not_found, database_failed, constraint_failed, Store,
}

-- sql.NullString with Valid where the text is not empty, and back
abbrev pub null_text : String → Option String
null_text s = if s == "" then none else some s

abbrev pub text_or_empty : Option String → String
text_or_empty none = ""
text_or_empty (some s) = s

abbrev pub instance_row : Time → AppInstance → InstanceRow
instance_row now a = record {
  id = a.id;
  catalog_id = a.catalog_id;
  source_id = null_text a.source_id;
  name = a.name;
  version = a.version;
  project_name = a.project_name;
  install_path = a.install_path;
  compose_path = a.compose_path;
  status = a.status;
  health = a.health;
  endpoints_json = a.endpoints;
  storage_json = a.storage;
  created_at = unix now;
  updated_at = unix now;
}

-- scanAppInstance of a row; `trust` is no column and stays empty
abbrev pub scan_instance : InstanceRow → AppInstance
scan_instance r = record {
  id = r.id;
  catalog_id = r.catalog_id;
  source_id = text_or_empty r.source_id;
  trust = SourceTrust.other "";
  name = r.name;
  version = r.version;
  project_name = r.project_name;
  install_path = r.install_path;
  compose_path = r.compose_path;
  status = r.status;
  health = r.health;
  endpoints = r.endpoints_json;
  storage = r.storage_json;
  created_at = from_unix r.created_at;
  updated_at = from_unix r.updated_at;
}

-- PRIMARY KEY, UNIQUE and REFERENCES of app_instances
abbrev pub instance_clash : InstanceRow → InstanceRow → Bool
instance_clash row r =
    r.id == row.id
    || r.catalog_id == row.catalog_id
    || r.project_name == row.project_name
    || r.install_path == row.install_path

abbrev pub source_known : List SourceRow → Option String → Bool
source_known sources none = true
source_known sources (some id) = exists (λ (s : SourceRow). s.id == id) sources

unfoldable pub insert_instance : InstanceRow → StoreDb → Result StoreError (Unit {0}) × StoreDb
insert_instance row db =
    if exists (instance_clash row) db.instances || not (source_known db.sources row.source_id)
    then (err constraint_failed, db)
    else (ok tt, record db { instances = row ∷ db.instances })

-- UPDATE app_instances SET … WHERE id=?, and the rows affected
unfoldable pub update_instances :
    String → (InstanceRow → InstanceRow) → StoreDb → Result StoreError ℕ × StoreDb
update_instances id f db = (
  ok (count_if (λ (r : InstanceRow). r.id == id) db.instances),
  record db { instances = update_if (λ (r : InstanceRow). r.id == id) f db.instances },
)

-- An archive goes with its application, and with its job.
abbrev pub archive_left : String → List JobRow → ArchiveRow → Bool
archive_left id jobs a =
    not (a.app_id == id || exists (λ (j : JobRow). j.app_id == id && j.id == a.job_id) jobs)

-- DELETE FROM app_instances WHERE id=?, with ON DELETE CASCADE of the tables that refer to it
unfoldable pub delete_instance : String → StoreDb → Result StoreError ℕ × StoreDb
delete_instance id db = (
  ok (count_if (λ (r : InstanceRow). r.id == id) db.instances),
  record {
    instances = keep (λ (r : InstanceRow). not (r.id == id)) db.instances;
    operations = keep (λ (r : OperationRow). not (r.app_id == id)) db.operations;
    revisions = keep (λ (r : RevisionRow). not (r.app_id == id)) db.revisions;
    sources = db.sources;
    jobs = keep (λ (r : JobRow). not (r.app_id == id)) db.jobs;
    archives = keep (archive_left id db.jobs) db.archives;
    schedules = keep (λ (r : ScheduleRow). not (r.app_id == id)) db.schedules;
  },
)

-- `if affected == 0 { return e }`
abbrev pub require_affected : StoreError → ℕ → Store (Unit {0})
require_affected e n = if nat_eq n 0 then raise e else pure tt

-- CreateAppInstance
unfoldable pub create_app_instance : Time → AppInstance → Store (Unit {0})
create_app_instance now a = stmt database_failed (insert_instance (instance_row now a))

abbrev pub found_instance : Option InstanceRow → Result StoreError AppInstance
-- the id in the text is that of the empty instance that Scan did not fill
found_instance none = err (app_not_found "")
found_instance (some r) = ok (scan_instance r)

-- GetAppInstance
unfoldable pub get_app_instance : String → Store AppInstance
get_app_instance id =
    query database_failed
      (λ db. found_instance (find_first (λ (r : InstanceRow). r.id == id) db.instances))

-- GetAppInstanceByCatalogID
unfoldable pub get_app_instance_by_catalog_id : String → Store AppInstance
get_app_instance_by_catalog_id catalog_id = query database_failed (λ db.
    found_instance (find_first (λ (r : InstanceRow). r.catalog_id == catalog_id) db.instances))

-- ListAppInstances; `order_by_name` is the ORDER BY of the engine, which does not say how ties come
unfoldable pub list_app_instances : (List InstanceRow → List InstanceRow) → Store (List AppInstance)
list_app_instances order_by_name =
    query database_failed (λ db. ok (map scan_instance (order_by_name db.instances)))

-- UpdateAppInstanceStatus
unfoldable pub update_app_instance_status :
    Time → String → AppInstanceStatus → HealthStatus → Store (Unit {0})
update_app_instance_status now id status health = do
  affected ← stmt database_failed (
      update_instances id
        (λ r. record r { status = status; health = health; updated_at = unix now }))
  require_affected (app_not_found id) affected

-- UpdateAppInstanceStatusAndEndpoints
unfoldable pub update_app_instance_status_and_endpoints :
    Time → String → AppInstanceStatus → HealthStatus → List AppEndpoint → Store (Unit {0})
update_app_instance_status_and_endpoints now id status health endpoints = do
  affected ← stmt database_failed (
      update_instances id (λ r. record r {
        status = status;
        health = health;
        endpoints_json = endpoints;
        updated_at = unix now;
      }))
  require_affected (app_not_found id) affected

-- DeleteAppInstance
unfoldable pub delete_app_instance : String → Store (Unit {0})
delete_app_instance id = do
  affected ← stmt database_failed (delete_instance id)
  require_affected (app_not_found id) affected
