-- ===== src/Api/Update/Tests.antt =====
-- The theorem on AppApplyUpdate at a concrete application.
use opendash.Prelude.{
  ◌≡◌, refl, Bool, true, false, some, [], Result, ok, ◌==◌, find_first, keep, exists,
}
use opendash.Models.Source.{UpdateApplyRequest}
use opendash.Sql.{Conn, try, ◌>>=◌}
use opendash.Store.Rows.{StoreDb}
use opendash.Sources.Service.{SourceError, of_store, add}
use opendash.Sources.Diff.{diff_by}
use opendash.Store.Apps.{get_app_instance, list_app_instances}
use opendash.Store.Operations.{
  get_active_operation_for_app, get_latest_revision, create_operation, insert_operation,
}
use opendash.Store.Sources.{
  get_manifest_source, get_manifest_source_by_url, create_manifest_source, insert_source,
}
use opendash.Sources.Service.Tests.{library, moved, offered}
use opendash.Api.Operations.{Reply, accepted}
use opendash.Api.Update.{Updater, app_apply_update}
use opendash.Api.Update.Confirmed.{IsApplied, app_apply_update-IsApplied}

abbrev updater : Updater
updater = record {
  library = library;
  resolve = moved;
  apps_root = "/srv";
  newest_first = λ rows. rows;
  now = 0;
  operation_id = "op";
}

abbrev request : UpdateApplyRequest
request = record { commit_sha = "c2"; checksum = "k2"; confirmed = true; acknowledged_risks = true }

abbrev quick : Conn StoreDb
quick = record { db = offered; faults = [] }

app_apply_update-IsApplied_example :
    (reply : Reply) × ((app_apply_update updater (some request) "app" quick).0 ≡ ok reply)
    × IsApplied updater request "app" offered reply
        (app_apply_update updater (some request) "app" quick).1.db
app_apply_update-IsApplied_example = app_apply_update-IsApplied updater request "app" quick

abbrev is_accepted : Result SourceError Reply → Bool
is_accepted (ok (accepted op inst)) = op.app_id == "app"
is_accepted _ = false

accepted_runs : is_accepted (app_apply_update updater (some request) "app" quick).0 ≡ true
unfolding app_apply_update ◌>>=◌ try of_store get_app_instance find_first
    get_active_operation_for_app keep add get_manifest_source_by_url create_manifest_source
    insert_source get_manifest_source get_latest_revision list_app_instances diff_by
    create_operation insert_operation exists
accepted_runs = refl
