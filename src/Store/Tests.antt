-- ===== src/Store/Tests.antt =====
-- The theorems on the store at concrete rows, and runs of it.
use opendash.Prelude.{
  ◌≡◌, refl, String, Bool, true, false, none, List, [], ◌∷◌, ◌+◌, ok, err, exists, count_if,
  update_if,
}
use opendash.Models.Time.{Time, from_unix}
use opendash.Models.Status.{
  AppInstanceStatus, HealthStatus, OperationKind, OperationStatus, SourceTrust,
}
use opendash.Models.App.{AppInstance, Operation, Revision}
use opendash.Models.Manifest.{Manifest}
use opendash.Models.Source.{ManifestSource}
use opendash.Sql.{Conn, ◌>>=◌, transaction, stmt}
use opendash.Store.Rows.{
  StoreDb, empty_store, source_changed, constraint_failed, app_not_found, revision_not_found,
  schedule_not_found,
}
use opendash.Store.Apps.{
  create_app_instance, get_app_instance, delete_app_instance, insert_instance, update_instances,
  delete_instance,
}
use opendash.Store.Operations.{
  create_operation, recover_operations, apply_successful_update, apply_body, insert_operation,
  insert_revision, update_sources, get_active_operation_for_app, list_operations_for_app,
  get_latest_revision,
}
use opendash.Store.Sources.{create_manifest_source, insert_source}
use opendash.Store.Backups.{list_backup_archives, get_backup_schedule}
use opendash.Store.Requests.{Request, run}
use opendash.Store.Consistent.{IsConsistent}
use opendash.Store.Runs.{run-IsConsistent}
use opendash.Store.Recovered.{recover-unblocks, after_recovery}
use opendash.Store.Applied.{apply-Settled, Settled}
use opendash.Store.Stored.{get-create, delete-gone, as_stored, settled}

abbrev noon : Time
noon = from_unix 1700000000 + 5

abbrev web : AppInstance
web = record {
  id = "app";
  catalog_id = "web";
  source_id = "src";
  trust = SourceTrust.official;
  name = "Web";
  version = "1.0.0";
  project_name = "opendash-web";
  install_path = "/apps/web";
  compose_path = "/apps/web/compose.yml";
  status = AppInstanceStatus.installing;
  health = HealthStatus.unknown;
  endpoints = [];
  storage = [];
  created_at = 0;
  updated_at = 0;
}

abbrev source : ManifestSource
source = record {
  id = "src";
  source_url = "https://github.com/o/r";
  owner = "o";
  repo = "r";
  path = "";
  ref = "main";
  commit_sha = "c1";
  manifest_json = "{}";
  checksum = "k1";
  trust = SourceTrust.reviewed;
  created_at = 0;
  updated_at = 0;
}

abbrev manifest : Manifest
manifest = record {
  id = "web";
  name = "Web";
  version = "1.1.0";
  description = "";
  category = "";
  tags = [];
  icon = "";
  website = "";
  source = "";
  maintainer = "";
  license = "";
  compose = record { file = "compose.yml"; inline = none; project_name = ""; main_service = "" };
  endpoints = [];
  storage = [];
  secrets = [];
  config = [];
  permissions = [];
  upgrade = none;
  backup = none;
}

abbrev revision : Revision
revision = record {
  id = "rev";
  app_id = "app";
  manifest = manifest;
  config_json = "{}";
  compose_path = "/apps/web/compose.yml";
  created_at = 0;
}

abbrev operation : String → OperationStatus → Operation
operation id status = record {
  id = id;
  app_id = "app";
  kind = OperationKind.install;
  status = status;
  error = "";
  output = "";
  created_at = 0;
  updated_at = 0;
}

abbrev source_there : Conn StoreDb
source_there = (create_manifest_source noon source (settled empty_store)).1

abbrev app_there : Conn StoreDb
app_there = (create_app_instance noon web source_there).1

abbrev busy : Conn StoreDb
busy = (create_operation noon (operation "op1" OperationStatus.running) app_there).1

app_runs : (create_app_instance noon web source_there).0 ≡ ok tt
unfolding create_manifest_source create_app_instance insert_source insert_instance stmt exists
app_runs = refl

-- A second active operation is refused by the index, a finished one is not.
second_runs :
    (create_operation noon (operation "op2" OperationStatus.pending) busy).0 ≡ err constraint_failed
unfolding create_manifest_source create_app_instance create_operation insert_source insert_instance
    insert_operation stmt exists
second_runs = refl

finished_runs : (create_operation noon (operation "op2" OperationStatus.failed) busy).0 ≡ ok tt
unfolding create_manifest_source create_app_instance create_operation insert_source insert_instance
    insert_operation stmt exists
finished_runs = refl

abbrev next : ManifestSource
next = record source { commit_sha = "c2"; checksum = "k2" }

apply_runs : (apply_successful_update noon web revision next "c1" "k1" busy).0 ≡ ok tt
unfolding create_manifest_source create_app_instance create_operation insert_source insert_instance
    insert_operation insert_revision update_sources update_instances apply_successful_update
    apply_body transaction ◌>>=◌ stmt exists count_if update_if
apply_runs = refl

apply_stale : (apply_successful_update noon web revision next "c0" "k1" busy).0 ≡ err source_changed
unfolding create_manifest_source create_app_instance create_operation insert_source insert_instance
    insert_operation insert_revision update_sources update_instances apply_successful_update
    apply_body transaction ◌>>=◌ stmt exists count_if update_if
apply_stale = refl

delete_runs : (delete_app_instance "app" busy).0 ≡ ok tt
unfolding create_manifest_source create_app_instance create_operation delete_app_instance
    insert_source insert_instance insert_operation delete_instance ◌>>=◌ stmt exists count_if
delete_runs = refl

abbrev script : List (Request × List Bool)
script =
    (Request.add_source noon source, [])
    ∷ (Request.create_app noon web, [])
    ∷ (Request.begin_operation noon (operation "op1" OperationStatus.pending), [])
    ∷ (Request.begin_operation noon (operation "op2" OperationStatus.pending), [])
    ∷ (Request.apply_update noon web revision next "c1" "k1", false ∷ false ∷ true ∷ [])
    ∷ (Request.recover noon, [])
    ∷ (Request.delete_source "src", [])
    ∷ (Request.delete_app "app", [])
    ∷ []

run-IsConsistent_example : IsConsistent (run script empty_store)
run-IsConsistent_example = run-IsConsistent script

recover-unblocks_example :
    ((recover_operations noon (record { db = busy.db; faults = [] })).0 ≡ ok tt)
    × ((get_active_operation_for_app (λ rows. rows) "app" (after_recovery noon busy.db)).0
        ≡ ok none)
    × ((create_operation noon
          (operation "op2" OperationStatus.pending)
          (after_recovery noon busy.db)).0
        ≡ ok tt)
unfolding create_manifest_source create_app_instance create_operation insert_source insert_instance
    insert_operation stmt exists
recover-unblocks_example =
    recover-unblocks noon noon (λ rows. rows) busy.db (operation "op2" OperationStatus.pending) refl
      refl refl

apply-Settled_example :
    let z = apply_successful_update noon web revision next "c1" "k1" busy in
    Settled noon web revision next "c1" "k1" busy.db z.0 z.1.db
apply-Settled_example = apply-Settled noon web revision next "c1" "k1" busy

get-create_example :
    (get_app_instance "app" (settled (create_app_instance noon web source_there).1.db)).0
    ≡ ok (as_stored noon web)
get-create_example = get-create noon web source_there app_runs

delete-gone_example :
    let left = settled (delete_app_instance "app" busy).1.db in
    ((get_app_instance "app" left).0 ≡ err (app_not_found ""))
    × ((list_operations_for_app (λ rows. rows) "app" left).0 ≡ ok [])
    × ((get_latest_revision (λ rows. rows) "app" left).0 ≡ err (revision_not_found "app"))
    × ((list_backup_archives (λ rows. rows) "app" left).0 ≡ ok [])
    × ((get_backup_schedule "app" left).0 ≡ err (schedule_not_found "app"))
delete-gone_example =
    delete-gone "app" busy (λ rows. rows) (λ rows. rows) (λ rows. rows) refl refl refl delete_runs
