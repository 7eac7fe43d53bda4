-- ===== src/Store/Requests.antt =====
-- The operations that write the tables of applications, operations, revisions and sources, as data, and
-- runs of them.
use opendash.Prelude.{String, Bool, List, [], ◌∷◌}
use opendash.Models.Time.{Time}
use opendash.Models.Status.{AppInstanceStatus, HealthStatus, SourceTrust}
use opendash.Models.Dashboard.{AppEndpoint}
use opendash.Models.App.{AppInstance, Operation, Revision}
use opendash.Models.Source.{ManifestSource}
use opendash.Store.Rows.{StoreDb, Store}
use opendash.Store.Apps.{
  create_app_instance, update_app_instance_status, update_app_instance_status_and_endpoints,
  delete_app_instance,
}
use opendash.Store.Operations.{
  create_operation, update_operation, recover_operations, create_revision, apply_successful_update,
}
use opendash.Store.Sources.{
  create_manifest_source, delete_manifest_source, update_manifest_source_trust,
  update_manifest_source_manifest,
}

pub data Request : Type 0 where
  create_app : Time → AppInstance → Request
  set_status : Time → String → AppInstanceStatus → HealthStatus → Request
  set_endpoints : Time → String → AppInstanceStatus → HealthStatus → List AppEndpoint → Request
  delete_app : String → Request
  begin_operation : Time → Operation → Request
  set_operation : Time → Operation → Request
  recover : Time → Request
  add_revision : Time → Revision → Request
  apply_update : Time → AppInstance → Revision → ManifestSource → String → String → Request
  add_source : Time → ManifestSource → Request
  delete_source : String → Request
  set_trust : Time → String → SourceTrust → Request
  set_manifest : Time → ManifestSource → Request

unfoldable pub serve : Request → Store (Unit {0})
serve (create_app now a) = create_app_instance now a
serve (set_status now id s h) = update_app_instance_status now id s h
serve (set_endpoints now id s h es) = update_app_instance_status_and_endpoints now id s h es
serve (delete_app id) = delete_app_instance id
serve (begin_operation now op) = create_operation now op
serve (set_operation now op) = update_operation now op
serve (recover now) = recover_operations now
serve (add_revision now v) = create_revision now v
serve (apply_update now a v s commit checksum) = apply_successful_update now a v s commit checksum
serve (add_source now s) = create_manifest_source now s
serve (delete_source id) = delete_manifest_source id
serve (set_trust now id trust) = update_manifest_source_trust now id trust
serve (set_manifest now s) = update_manifest_source_manifest now s

-- Each request with the failures of the driver that meet it.
unfoldable pub run : List (Request × List Bool) → StoreDb → StoreDb
unfolding serve
run [] db = db
run ((r, faults) ∷ rest) db = run rest (serve r (record { db = db; faults = faults })).1.db
