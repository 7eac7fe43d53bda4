-- ===== src/Api/Operations.antt =====
-- internal/api/catalog.go: the handlers that start an operation of an application, and the goroutine
-- that runs it. The store is one with the methods of AppManager, as SQLiteStore is: the handlers' 501 for another
-- store is left out. Its replies are the status and the code; a success replies with the operation. What the
-- runtime answers, the clock and the new ids are arguments.
mod Updated
pub mod Ends
pub mod Settled
pub mod Uninstalled
pub mod Looked
pub mod Started
mod Tests
use Prim.Native.String.{◌++◌ as ◌<>◌}
use opendash.Prelude.{
  ℕ, String, Bool, true, false, Option, none, some, List, [], ◌==◌, if◌then◌else◌,
}
use opendash.Models.Time.{Time}
use opendash.Models.Status.{AppInstanceStatus, HealthStatus, OperationStatus, OperationKind}
use opendash.Models.App.{AppInstance, Operation, Revision}
use opendash.Models.Runtime.{ObservedState}
use opendash.Sql.{pure, raise, try, ◌>>=◌, ◌>>◌}
use opendash.Store.Rows.{StoreError, database_failed, OperationRow, RevisionRow, Store}
use opendash.Store.Apps.{get_app_instance, update_app_instance_status, delete_app_instance}
use opendash.Store.Operations.{create_operation, update_operation, get_active_operation_for_app}
use opendash.Api.Redact.{Texts, secret_values_for_app, redact_secrets}
use opendash.Api.Observe.{observe_and_update_instance}

-- RespondError, or the operation with the instance that the goroutine is given
pub data Reply : Type 0 where
  refused : ℕ → String → Reply
  accepted : Operation → AppInstance → Reply

-- what the function of an operation returns: a new status of the instance, an error that is not or is
-- context.Canceled, or a panic
pub data Ended : Type 0 where
  done : Option AppInstanceStatus → Ended
  failed cancelled panicked : String → Ended

abbrev pub new_operation : Time → String → String → OperationKind → Operation
new_operation now id app_id kind = record {
  id = id;
  app_id = app_id;
  kind = kind;
  status = OperationStatus.pending;
  error = "";
  output = "";
  created_at = now;
  updated_at = now;
}

-- getInstance
abbrev pub with_instance : Option AppInstance → (AppInstance → Store Reply) → Store Reply
with_instance none next = pure (refused 404 "not_found")
with_instance (some inst) next = next inst

unfoldable pub get_instance : String → (AppInstance → Store Reply) → Store Reply
get_instance id next =
    if id == ""
    then pure (refused 400 "missing_id")
    else do inst ← try (get_app_instance id); with_instance inst next

-- `active, _ := …; active != nil`
abbrev pub is_active_found : Option (Option Operation) → Bool
is_active_found (some (some op)) = true
is_active_found _ = false

abbrev pub reply_created : Operation → AppInstance → Option (Unit {0}) → Reply
reply_created op inst none = refused 500 "operation_error"
reply_created op inst (some u) = accepted op inst

-- what AppUninstall and composeAction do with their instance
unfoldable pub start_operation :
    (List OperationRow → List OperationRow)
    → Time
    → String
    → OperationKind
    → AppInstance
    → Store Reply
start_operation newest_first now op_id kind inst = do
  active ← try (get_active_operation_for_app newest_first inst.id)
  if is_active_found active then pure (refused 409 "operation_in_progress") else do
    created ← try (create_operation now (new_operation now op_id inst.id kind))
    pure (reply_created (new_operation now op_id inst.id kind) inst created)

-- composeAction, and AppUninstall with its kind
unfoldable pub compose_action :
    (List OperationRow → List OperationRow) → Time → String → OperationKind → String → Store Reply
unfolding get_instance start_operation
compose_action newest_first now op_id kind id =
    get_instance id (start_operation newest_first now op_id kind)

-- the functions of AppStart, AppStop, AppRestart and InstallApp, behind the runtime
abbrev pub answered : Ended → Store Ended
answered e = pure e

-- the function of AppUninstall, behind the runtime
abbrev uninstalled : String → Ended → Store Ended
uninstalled id (done status) = do try (delete_app_instance id); pure (done none)
uninstalled id (failed e) = pure (failed e)
uninstalled id (cancelled e) = pure (cancelled e)
uninstalled id (panicked e) = pure (panicked e)

unfoldable pub uninstall : String → Ended → Store Ended
uninstall id e = uninstalled id e

-- what the goroutine has at hand: the clock, the sorts, the decoder of a configuration, and what the
-- runtime observes, where it does, and whether the goroutine's context has ended when the work is done
pub record Surroundings : Type 0 where
  pub now : Time
  pub newest_first : List RevisionRow → List RevisionRow
  pub decode : String → Option Texts
  pub longest_first : List String → List String
  pub observed : Option ObservedState
  pub context_ended : Bool

-- a call of the store with the goroutine's context: where that was cancelled or has timed out, the call fails at once
abbrev pub in_context : {A : Type 0} → Bool → Store A → Store A
in_context true m = raise database_failed
in_context false m = m

-- `update` of runOperation
unfoldable pub report :
    Surroundings
    → Bool
    → Texts
    → Operation
    → OperationStatus
    → String
    → String
    → Store (Option (Unit {0}))
unfolding redact_secrets
report s ended secrets op status output message = try (
    in_context ended (
      update_operation s.now (record op {
        status = status;
        output = redact_secrets s.longest_first secrets output;
        error = redact_secrets s.longest_first secrets message;
        updated_at = s.now;
      })))

abbrev pub set_status : Surroundings → Option AppInstance → AppInstanceStatus → Store (Unit {0})
set_status s none status = pure tt
set_status s (some inst) status = do
  try (
      in_context s.context_ended
        (update_app_instance_status s.now inst.id status HealthStatus.unknown))
  pure tt

abbrev pub set_new_status :
    Surroundings → Option AppInstance → Option AppInstanceStatus → Store (Unit {0})
set_new_status s inst none = pure tt
set_new_status s inst (some status) = set_status s inst status

abbrev pub observe : Surroundings → Option AppInstance → Option ObservedState → Store (Unit {0})
observe s none obs = pure tt
observe s (some inst) none = pure tt
observe s (some inst) (some obs) = do
  try (in_context s.context_ended (observe_and_update_instance s.now inst obs))
  pure tt

abbrev pub final_status : Ended → OperationStatus
final_status (done status) = OperationStatus.completed
final_status (failed e) = OperationStatus.failed
final_status (cancelled e) = OperationStatus.cancelled
final_status (panicked e) = OperationStatus.failed

abbrev pub final_error : Ended → String
final_error (done status) = ""
final_error (failed e) = e
final_error (cancelled e) = e
final_error (panicked e) = "internal error: " <> e

-- what is stored of the instance, once the operation has its final status
abbrev pub settle_instance : Surroundings → Option AppInstance → Ended → Store (Unit {0})
settle_instance s inst (done status) = do set_new_status s inst status; observe s inst s.observed
settle_instance s inst _ = set_status s inst AppInstanceStatus.error

-- runOperation: the body of the goroutine
unfoldable pub run_operation :
    Surroundings → Operation → Option AppInstance → Store Ended → Store (Unit {0})
unfolding report
run_operation s op inst work = do
  secrets ← secret_values_for_app s.newest_first s.decode op.app_id
  report s false secrets op OperationStatus.running "" ""
  e ← work
  report s s.context_ended secrets op (final_status e) "" (final_error e)
  settle_instance s inst e
