-- ===== src/Api/Operations/Tests.antt =====
-- The theorems on operations at concrete stores.
use opendash.Prelude.{
  ◌≡◌, ◌==◌, Bool, Result, keep, find_first, refl, true, false, none, [], ◌∷◌, ok, exists, contains,
  arith,
}
use opendash.Prelude.Int.{pos}
use opendash.Prelude.Spans.{span}
use opendash.Prelude.Maps.{get, text_key}
use opendash.Models.Status.{AppInstanceStatus, HealthStatus, OperationKind, EndpointKind}
use opendash.Models.Dashboard.{AppEndpoint}
use opendash.Models.App.{Operation}
use opendash.Sql.{Conn, stmt, try, ◌>>=◌}
use opendash.Sql.Returns.{Returns, Fails, quiet}
use opendash.Store.Rows.{InstanceRow, StoreError, StoreDb, operation_not_found, empty_store}
use opendash.Store.Apps.{get_app_instance}
use opendash.Store.Operations.{
  get_active_operation_for_app, create_operation, insert_operation, two_active, get_operation,
  active_for,
}
use opendash.Api.Redact.{Texts, redact_secrets}
use opendash.Api.Redact.Absent.{redact-absent}
use opendash.Api.Observe.{update_endpoints, endpoint_container_port}
use opendash.Api.Operations.{
  Reply, accepted, get_instance, start_operation, done, failed, answered, uninstall, Surroundings,
  new_operation, run_operation, compose_action,
}
use opendash.Api.Operations.Settled.{shown_row, ended_row, action-settles}
use opendash.Api.Operations.Uninstalled.{uninstall-forgets}
use opendash.Api.Operations.Started.{IsAnswer, compose_action-IsAnswer}

abbrev installed : InstanceRow
installed = record {
  id = "app";
  catalog_id = "web";
  source_id = none;
  name = "Web";
  version = "1.0.0";
  project_name = "opendash-web";
  install_path = "/srv/web";
  compose_path = "/srv/web/compose.json";
  status = AppInstanceStatus.stopped;
  health = HealthStatus.unknown;
  endpoints_json = [];
  storage_json = [];
  created_at = 0;
  updated_at = 0;
}

abbrev store : StoreDb
store = record empty_store { instances = installed ∷ [] }

abbrev surroundings : Surroundings
surroundings = record {
  now = 0;
  newest_first = λ rows. rows;
  decode = λ text. none;
  longest_first = λ values. values;
  observed = none;
  context_ended = false;
}

abbrev operation : Operation
operation = new_operation 0 "op" "app" OperationKind.start

create_runs : (create_operation 0 operation (quiet store)).0 ≡ ok tt
unfolding create_operation stmt insert_operation exists
create_runs = refl

abbrev started : StoreDb
started = (create_operation 0 operation (quiet store)).1.db

action-settles_example :
    let e = failed "exit status 1" in
    (d2 : StoreDb) × Returns (run_operation surroundings operation none (answered e)) started tt d2
    × Returns (get_operation "op") d2 (shown_row (ended_row surroundings 0 operation e store)) d2
    × (d2.operations ≡ ended_row surroundings 0 operation e store ∷ [])
    × (exists (active_for "app") d2.operations ≡ false)
unfolding two_active
action-settles_example =
    action-settles surroundings 0 operation none (failed "exit status 1") store refl refl
      create_runs

uninstall-forgets_example :
    (d2 : StoreDb) × Returns
      (run_operation surroundings operation none (uninstall "app" (done none)))
      started
      tt
      d2
    × Fails (get_operation "op") d2 (operation_not_found "op") d2
unfolding two_active
uninstall-forgets_example =
    uninstall-forgets surroundings 0 operation store none refl refl create_runs

abbrev quick : Conn StoreDb
quick = record { db = store; faults = [] }

abbrev is_accepted : Result StoreError Reply → Bool
is_accepted (ok (accepted op inst)) = op.app_id == "app"
is_accepted _ = false

accepted_runs :
    is_accepted (compose_action (λ rows. rows) 0 "op" OperationKind.stop "app" quick).0 ≡ true
unfolding compose_action get_instance start_operation ◌>>=◌ try get_app_instance find_first
    get_active_operation_for_app keep create_operation insert_operation exists
accepted_runs = refl

compose_action-IsAnswer_example :
    (reply : Reply) × ((compose_action (λ rows. rows) 0 "op" OperationKind.stop "app" quick).0
      ≡ ok reply)
    × IsAnswer 0 "op" OperationKind.stop "app" store reply
        (compose_action (λ rows. rows) 0 "op" OperationKind.stop "app" quick).1.db
compose_action-IsAnswer_example =
    compose_action-IsAnswer (λ rows. rows) 0 "op" OperationKind.stop "app" quick

abbrev secrets : Texts
secrets = ("hunter2", "") ∷ ("ab", "") ∷ []

redact_runs : redact_secrets (λ values. values) secrets "password hunter2, ab" ≡ "password ***, ab"
unfolding redact_secrets
redact_runs = refl

redact-absent_example :
    contains (redact_secrets (λ values. values) secrets "password hunter2, ab") "hunter2" ≡ false
unfolding get
redact-absent_example =
    redact-absent (λ values. values) secrets "password hunter2, ab" "hunter2" "" (λ w vs. refl) refl
      (omega arith) refl

-- The endpoint is that of container port 80, published at 3001; the runtime publishes it at 4000 now.
endpoint_unmatched :
    let ep : AppEndpoint = record {
      label = "ui";
      url = "http://127.0.0.1:3001/";
      kind = EndpointKind.web;
    } in
    update_endpoints (ep ∷ []) ((pos 80, pos 4000) ∷ []) ≡ ep ∷ []
unfolding update_endpoints endpoint_container_port span
endpoint_unmatched = refl
