-- ===== src/Api/Update.antt =====
-- internal/api/sources.go: AppApplyUpdate. The decoded body, the resolver, the clock and the new id are arguments.
pub mod Confirmed
mod Tests
use opendash.Prelude.{
  String, Bool, true, false, not, ◌||◌, ◌&&◌, Option, none, some, List, ◌==◌, if◌then◌else◌,
}
use opendash.Models.Time.{Time}
use opendash.Models.Status.{OperationKind}
use opendash.Models.App.{AppInstance, Operation}
use opendash.Models.Source.{UpdatePreview, UpdateApplyRequest}
use opendash.Sql.{pure, try, ◌>>=◌}
use opendash.Store.Rows.{OperationRow}
use opendash.Store.Apps.{get_app_instance}
use opendash.Store.Operations.{create_operation, get_active_operation_for_app}
use opendash.Github.Url.{Url}
use opendash.Sources.Service.{Sources, of_store, Resolved, ServiceLibrary, update_preview}
use opendash.Api.Operations.{Reply, refused, accepted, new_operation, is_active_found}

pub record Updater : Type 0 where
  pub library : ServiceLibrary
  pub resolve : Url → Option Resolved
  pub apps_root : String
  pub newest_first : List OperationRow → List OperationRow
  pub now : Time
  pub operation_id : String

abbrev pub update_operation_of : Updater → AppInstance → Operation
update_operation_of env inst = new_operation env.now env.operation_id inst.id OperationKind.update

abbrev pub reply_update : Updater → AppInstance → Option (Unit {0}) → Reply
reply_update env inst none = refused 409 "operation_error"
reply_update env inst (some u) = accepted (update_operation_of env inst) inst

abbrev pub is_confirmed : UpdateApplyRequest → Bool
is_confirmed req = req.confirmed && not (req.commit_sha == "") && not (req.checksum == "")

abbrev pub is_reviewed : UpdateApplyRequest → UpdatePreview → Bool
is_reviewed req p = p.new_commit == req.commit_sha && p.new_checksum == req.checksum

abbrev pub is_acknowledged : UpdateApplyRequest → UpdatePreview → Bool
is_acknowledged req p = not p.requires_acknowledgement || req.acknowledged_risks

abbrev pub create_update : Updater → AppInstance → Sources Reply
create_update env inst = do
  created ← try (of_store (create_operation env.now (update_operation_of env inst)))
  pure (reply_update env inst created)

-- behind UpdatePreview
abbrev pub with_preview :
    Updater → UpdateApplyRequest → AppInstance → Option UpdatePreview → Sources Reply
with_preview env req inst none = pure (refused 400 "update_preview_failed")
with_preview env req inst (some p) =
    if not (is_reviewed req p)
    then pure (refused 409 "stale_preview")
    else if not p.can_update
    then pure (refused 409 "update_blocked")
    else if not (is_acknowledged req p)
    then pure (refused 400 "risk_acknowledgement_required")
    else if not (p.new_manifest.id == p.current_manifest.id)
    then pure (refused 400 "identity_change")
    else create_update env inst

-- behind GetAppInstance
abbrev pub with_installed : Updater → UpdateApplyRequest → Option AppInstance → Sources Reply
with_installed env req none = pure (refused 404 "not_found")
with_installed env req (some inst) = do
  active ← try (of_store (get_active_operation_for_app env.newest_first inst.id))
  if is_active_found active then pure (refused 409 "operation_in_progress") else do
    preview ← try (update_preview env.library env.resolve env.now env.apps_root inst)
    with_preview env req inst preview

-- AppApplyUpdate
unfoldable pub app_apply_update : Updater → Option UpdateApplyRequest → String → Sources Reply
unfolding update_preview
app_apply_update env none id = pure (refused 400 "invalid_request")
app_apply_update env (some req) id =
    if not (is_confirmed req)
    then pure (refused 400 "confirmation_required")
    else do found ← try (of_store (get_app_instance id)); with_installed env req found
