-- ===== src/Store/Operations.antt =====
-- internal/store/sqlite.go: operations on applications and the revisions they leave.
use opendash.Prelude.{
  ℕ, String, Bool, true, false, ◌||◌, ◌&&◌, not, Option, none, some, List, [], ◌∷◌, Result, ok, err,
  map, nat_eq, ◌==◌, if◌then◌else◌, keep, exists, find_first, count_if, update_if,
}
use opendash.Models.Time.{Time, unix, from_unix}
use opendash.Models.Status.{OperationStatus}
use opendash.Models.App.{AppInstance, Operation, Revision}
use opendash.Models.Source.{ManifestSource}
use opendash.Sql.{pure, raise, stmt, query, transaction, ◌>>=◌, ◌>>◌}
use opendash.Store.Rows.{
  InstanceRow, SourceRow, OperationRow, RevisionRow, StoreDb, StoreError, operation_not_found,
  revision_not_found, source_changed, database_failed, constraint_failed, Store,
}
use opendash.Store.Apps.{update_instances, require_affected}

-- status IN ('pending','running')
abbrev pub is_active : OperationStatus → Bool
is_active OperationStatus.pending = true
is_active OperationStatus.running = true
is_active _ = false

abbrev pub active_for : String → OperationRow → Bool
active_for app_id r = r.app_id == app_id && is_active r.status

abbrev pub operation_row : Time → Operation → OperationRow
operation_row now op = record {
  id = op.id;
  app_id = op.app_id;
  kind = op.kind;
  status = op.status;
  error = op.error;
  output = op.output;
  created_at = unix now;
  updated_at = unix now;
}

-- scanOperation
abbrev pub scan_operation : OperationRow → Operation
scan_operation r = record {
  id = r.id;
  app_id = r.app_id;
  kind = r.kind;
  status = r.status;
  error = r.error;
  output = r.output;
  created_at = from_unix r.created_at;
  updated_at = from_unix r.updated_at;
}

abbrev pub app_known : StoreDb → String → Bool
app_known db id = exists (λ (r : InstanceRow). r.id == id) db.instances

-- The key, the reference, and idx_operations_one_active_per_app.
unfoldable pub insert_operation : OperationRow → StoreDb → Result StoreError (Unit {0}) × StoreDb
insert_operation row db =
    if exists (λ (r : OperationRow). r.id == row.id) db.operations
      || not (app_known db row.app_id)
      || (is_active row.status && exists (active_for row.app_id) db.operations)
    then (err constraint_failed, db)
    else (ok tt, record db { operations = row ∷ db.operations })

-- Two active rows of one application, which the index refuses.
unfoldable pub two_active : List OperationRow → Bool
two_active [] = false
two_active (r ∷ rs) =
    let rest = two_active rs in (is_active r.status && exists (active_for r.app_id) rs) || rest

-- UPDATE operations SET … WHERE …, and the rows affected
unfoldable pub update_operations :
    (OperationRow → Bool) → (OperationRow → OperationRow) → StoreDb → Result StoreError ℕ × StoreDb
unfolding two_active
update_operations p f db =
    if two_active (update_if p f db.operations)
    then (err constraint_failed, db)
    else (ok (count_if p db.operations), record db { operations = update_if p f db.operations })

-- CreateOperation
unfoldable pub create_operation : Time → Operation → Store (Unit {0})
create_operation now op = stmt database_failed (insert_operation (operation_row now op))

abbrev found_operation : String → Option OperationRow → Result StoreError Operation
found_operation id none = err (operation_not_found id)
found_operation id (some r) = ok (scan_operation r)

-- GetOperation
unfoldable pub get_operation : String → Store Operation
get_operation id =
    query database_failed
      (λ db. found_operation id (find_first (λ (r : OperationRow). r.id == id) db.operations))

abbrev pub first_row : {A : Type 0} → List A → Option A
first_row [] = none
first_row (x ∷ xs) = some x

abbrev pub scan_active : Option OperationRow → Option Operation
scan_active none = none
scan_active (some r) = some (scan_operation r)

-- GetActiveOperationForApp; `newest_first` is the engine's ORDER BY created_at DESC
unfoldable pub get_active_operation_for_app :
    (List OperationRow → List OperationRow) → String → Store (Option Operation)
get_active_operation_for_app newest_first app_id =
    query database_failed
      (λ db. ok (scan_active (first_row (newest_first (keep (active_for app_id) db.operations)))))

-- UpdateOperation
unfoldable pub update_operation : Time → Operation → Store (Unit {0})
update_operation now op = do
  affected ← stmt database_failed (
      update_operations (λ r. r.id == op.id)
        (λ r. record r {
          status = op.status;
          error = op.error;
          output = op.output;
          updated_at = unix now;
        }))
  require_affected (operation_not_found op.id) affected

-- ListOperationsForApp
unfoldable pub list_operations_for_app :
    (List OperationRow → List OperationRow) → String → Store (List Operation)
list_operations_for_app newest_first app_id = query database_failed (λ db. ok (
    map scan_operation
      (newest_first (keep (λ (r : OperationRow). r.app_id == app_id) db.operations))))

abbrev pub interrupted : Time → OperationRow → OperationRow
interrupted now r = record r {
  status = OperationStatus.failed;
  error = "interrupted by restart";
  output = "";
  updated_at = unix now;
}

-- RecoverOperations
unfoldable pub recover_operations : Time → Store (Unit {0})
recover_operations now = do
  stmt database_failed (update_operations (λ r. is_active r.status) (interrupted now))
  pure tt

abbrev pub revision_row : Time → Revision → RevisionRow
revision_row now v = record {
  id = v.id;
  app_id = v.app_id;
  manifest_json = v.manifest;
  config_json = v.config_json;
  compose_path = v.compose_path;
  created_at = unix now;
}

unfoldable pub insert_revision : RevisionRow → StoreDb → Result StoreError (Unit {0}) × StoreDb
insert_revision row db =
    if exists (λ (r : RevisionRow). r.id == row.id) db.revisions || not (app_known db row.app_id)
    then (err constraint_failed, db)
    else (ok tt, record db { revisions = row ∷ db.revisions })

-- CreateRevision
unfoldable pub create_revision : Time → Revision → Store (Unit {0})
create_revision now v = stmt database_failed (insert_revision (revision_row now v))

abbrev pub found_revision : String → Option RevisionRow → Result StoreError Revision
found_revision app_id none = err (revision_not_found app_id)
found_revision app_id (some r) = ok (record {
  id = r.id;
  app_id = r.app_id;
  manifest = r.manifest_json;
  config_json = r.config_json;
  compose_path = r.compose_path;
  created_at = from_unix r.created_at;
})

-- GetLatestRevision
unfoldable pub get_latest_revision : (List RevisionRow → List RevisionRow) → String → Store Revision
get_latest_revision newest_first app_id = query database_failed (λ db.
    found_revision app_id
      (first_row (newest_first (keep (λ (r : RevisionRow). r.app_id == app_id) db.revisions))))

-- UPDATE manifest_sources SET … WHERE …, and the rows affected
unfoldable pub update_sources :
    (SourceRow → Bool) → (SourceRow → SourceRow) → StoreDb → Result StoreError ℕ × StoreDb
update_sources p f db =
    (ok (count_if p db.sources), record db { sources = update_if p f db.sources })

abbrev pub unchanged_source : ManifestSource → String → String → SourceRow → Bool
unchanged_source source commit checksum r =
    r.id == source.id && r.commit_sha == commit && r.checksum == checksum

abbrev pub updated_source : Time → ManifestSource → SourceRow → SourceRow
updated_source now source r = record r {
  commit_sha = source.commit_sha;
  manifest_json = source.manifest_json;
  checksum = source.checksum;
  updated_at = unix now;
}

abbrev pub updated_instance : Time → AppInstance → InstanceRow → InstanceRow
updated_instance now a r = record r {
  name = a.name;
  version = a.version;
  compose_path = a.compose_path;
  status = a.status;
  health = a.health;
  endpoints_json = a.endpoints;
  storage_json = a.storage;
  updated_at = unix now;
}

-- the body of the transaction of ApplySuccessfulUpdate
unfoldable pub apply_body :
    Time → AppInstance → Revision → ManifestSource → String → String → Store (Unit {0})
apply_body now a v source commit checksum = do
  n ←
      stmt database_failed
        (update_sources (unchanged_source source commit checksum) (updated_source now source))
  if not (nat_eq n 1) then raise source_changed else pure tt
  stmt database_failed (insert_revision (revision_row now v))
  stmt database_failed (update_instances a.id (updated_instance now a))
  pure tt

-- ApplySuccessfulUpdate; all of its statements read the clock as `now`
unfoldable pub apply_successful_update :
    Time → AppInstance → Revision → ManifestSource → String → String → Store (Unit {0})
unfolding apply_body
apply_successful_update now a v source commit checksum =
    transaction database_failed (apply_body now a v source commit checksum)
