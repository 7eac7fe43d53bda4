-- ===== src/Store/Runs.antt =====
-- What holds of the tables after any run of requests.
use opendash.Prelude.{ℕ, refl, String, Bool, not, List, [], ◌∷◌, Result, ok, err, nat_eq}
use opendash.Models.Time.{Time}
use opendash.Models.App.{AppInstance, Revision}
use opendash.Models.Source.{ManifestSource}
use opendash.Sql.{Conn, pure, stmt, ◌>>=◌}
use opendash.Sql.Triple.{
  Triple, Outcome, Triple-pure, Triple-raise, Triple-stmt, Triple-bind, Triple-transaction,
  Triple-if, Triple-forget,
}
use opendash.Store.Rows.{StoreDb, StoreError, Store, empty_store, database_failed}
use opendash.Store.Apps.{
  require_affected, create_app_instance, update_app_instance_status,
  update_app_instance_status_and_endpoints, delete_app_instance,
}
use opendash.Store.Operations.{
  apply_body, updated_instance, create_operation, update_operation, recover_operations,
  create_revision, apply_successful_update,
}
use opendash.Store.Sources.{
  create_manifest_source, delete_manifest_source, update_manifest_source_trust,
  update_manifest_source_manifest,
}
use opendash.Store.Consistent.{
  IsConsistent, IsInner, Keeps, empty_store-IsConsistent, insert_instance-IsConsistent,
  update_instances-IsConsistent, delete_instance-IsConsistent, insert_operation-IsConsistent,
  update_operations-IsConsistent, insert_revision-IsConsistent,
}
use opendash.Store.Consistent.OfSources.{
  insert_source-IsConsistent, update_sources-IsConsistent, delete_source-IsConsistent,
}
use opendash.Store.Requests.{Request, serve, run}

-- The call keeps the tables consistent, whether it returns or fails.
abbrev KeepsCall : {A : Type 0} → Store A → Type 0
KeepsCall m = Triple IsConsistent m (λ _. IsConsistent) (λ _. IsConsistent)

stmt-KeepsCall :
    {A : Type 0} (f : StoreDb → Result StoreError A × StoreDb)
    → Keeps f
    → KeepsCall (stmt database_failed f)
stmt-KeepsCall f k = Triple-stmt _ _ (λ d h. either (f d).0 (f d).1 (k d h)) (λ d h. h)
  where
    either :
        {A : Type 0} (r : Result StoreError A) (d : StoreDb)
        → IsConsistent d
        → Outcome (λ _. IsConsistent) (λ _. IsConsistent) r d
    either (ok a) d h = h
    either (err e) d h = h

pure-KeepsCall : {A : Type 0} (a : A) → KeepsCall (pure {E = StoreError} {D = StoreDb} a)
pure-KeepsCall a = Triple-pure a (λ d h. h)

require_affected-KeepsCall : (e : StoreError) (n : ℕ) → KeepsCall (require_affected e n)
require_affected-KeepsCall e n =
    Triple-if (nat_eq n 0) _ _ (λ _. Triple-raise e (λ d h. h)) (λ _. pure-KeepsCall tt)

affected-KeepsCall :
    (e : StoreError) (f : StoreDb → Result StoreError ℕ × StoreDb)
    → Keeps f
    → KeepsCall (stmt database_failed f >>= require_affected e)
affected-KeepsCall e f k =
    Triple-bind {Q = λ _. IsConsistent} (stmt-KeepsCall f k) (require_affected-KeepsCall e)

apply_body-KeepsCall :
    (now : Time) (a : AppInstance) (v : Revision) (source : ManifestSource)
    (commit checksum : String)
    → KeepsCall (apply_body now a v source commit checksum)
unfolding apply_body
apply_body-KeepsCall now a v source commit checksum =
    Triple-bind {Q = λ _. IsConsistent}
      (stmt-KeepsCall _ (update_sources-IsConsistent _ _ (λ s. refl) (λ s. refl)))
      λ n.
        Triple-bind {Q = λ _. IsConsistent}
          (Triple-if (not (nat_eq n 1)) _ _ (λ _. Triple-raise _ (λ d h. h))
            (λ _. pure-KeepsCall tt))
          λ _.
            Triple-bind {Q = λ _. IsConsistent} (stmt-KeepsCall _ (insert_revision-IsConsistent _))
              λ _.
                Triple-bind {Q = λ _. IsConsistent}
                  (stmt-KeepsCall _
                    (update_instances-IsConsistent a.id (updated_instance now a) inner))
                  λ _. pure-KeepsCall tt
  where
    inner : IsInner (updated_instance now a)
    inner = record {
      same_id = λ r. refl;
      same_catalog_id = λ r. refl;
      same_project = λ r. refl;
      same_path = λ r. refl;
      same_source = λ r. refl;
    }

apply-KeepsCall :
    (now : Time) (a : AppInstance) (v : Revision) (source : ManifestSource)
    (commit checksum : String)
    → KeepsCall (apply_successful_update now a v source commit checksum)
unfolding apply_successful_update
apply-KeepsCall now a v source commit checksum =
    Triple-transaction database_failed (apply_body now a v source commit checksum)
      (Triple-forget (apply_body-KeepsCall now a v source commit checksum)) (λ e d h. h)

serve-KeepsCall : (r : Request) → KeepsCall (serve r)
unfolding serve create_app_instance update_app_instance_status
    update_app_instance_status_and_endpoints delete_app_instance create_operation update_operation
    recover_operations create_revision create_manifest_source delete_manifest_source
    update_manifest_source_trust update_manifest_source_manifest
serve-KeepsCall (Request.create_app now a) = stmt-KeepsCall _ (insert_instance-IsConsistent _)
serve-KeepsCall (Request.set_status now id s h) = affected-KeepsCall _ _ (
    update_instances-IsConsistent id _ (record {
      same_id = λ r. refl;
      same_catalog_id = λ r. refl;
      same_project = λ r. refl;
      same_path = λ r. refl;
      same_source = λ r. refl;
    }))
serve-KeepsCall (Request.set_endpoints now id s h es) = affected-KeepsCall _ _ (
    update_instances-IsConsistent id _ (record {
      same_id = λ r. refl;
      same_catalog_id = λ r. refl;
      same_project = λ r. refl;
      same_path = λ r. refl;
      same_source = λ r. refl;
    }))
serve-KeepsCall (Request.delete_app id) = affected-KeepsCall _ _ (delete_instance-IsConsistent id)
serve-KeepsCall (Request.begin_operation now op) =
    stmt-KeepsCall _ (insert_operation-IsConsistent _)
serve-KeepsCall (Request.set_operation now op) =
    affected-KeepsCall _ _ (update_operations-IsConsistent _ _ (λ r. refl) (λ r. refl))
serve-KeepsCall (Request.recover now) =
    Triple-bind {Q = λ _. IsConsistent}
      (stmt-KeepsCall _ (update_operations-IsConsistent _ _ (λ r. refl) (λ r. refl)))
      λ _. pure-KeepsCall tt
serve-KeepsCall (Request.add_revision now v) = stmt-KeepsCall _ (insert_revision-IsConsistent _)
serve-KeepsCall (Request.apply_update now a v s commit checksum) =
    apply-KeepsCall now a v s commit checksum
serve-KeepsCall (Request.add_source now s) = stmt-KeepsCall _ (insert_source-IsConsistent _)
serve-KeepsCall (Request.delete_source id) = affected-KeepsCall _ _ (delete_source-IsConsistent id)
serve-KeepsCall (Request.set_trust now id trust) =
    Triple-bind {Q = λ _. IsConsistent}
      (stmt-KeepsCall _ (update_sources-IsConsistent _ _ (λ s. refl) (λ s. refl)))
      λ _. pure-KeepsCall tt
serve-KeepsCall (Request.set_manifest now s) =
    Triple-bind {Q = λ _. IsConsistent}
      (stmt-KeepsCall _ (update_sources-IsConsistent _ _ (λ s. refl) (λ s. refl)))
      λ _. pure-KeepsCall tt

Outcome-IsConsistent :
    {A : Type 0} (r : Result StoreError A) (d : StoreDb)
    → Outcome (λ _. IsConsistent) (λ _. IsConsistent) r d
    → IsConsistent d
Outcome-IsConsistent (ok a) d h = h
Outcome-IsConsistent (err e) d h = h

serve-IsConsistent :
    (r : Request) (c : Conn StoreDb) → IsConsistent c.db → IsConsistent (serve r c).1.db
serve-IsConsistent r c h =
    Outcome-IsConsistent (serve r c).0 (serve r c).1.db ((serve-KeepsCall r).at c h)

run_from-IsConsistent :
    (rs : List (Request × List Bool)) (db : StoreDb) → IsConsistent db → IsConsistent (run rs db)
unfolding run
run_from-IsConsistent [] db h = h
run_from-IsConsistent ((r, faults) ∷ rs) db h =
    run_from-IsConsistent rs (serve r (record { db = db; faults = faults })).1.db
      (serve-IsConsistent r (record { db = db; faults = faults }) h)

-- After any run of requests on a new database, each with any failures of the driver: no two
-- applications share an id, a catalogue id, a project name or an install path, no two operations or
-- revisions an id, no two sources an id or a URL; an application has at most one pending or running
-- operation; and every operation and revision is of an application that exists, and every source that
-- an application names exists.
pub run-IsConsistent : (rs : List (Request × List Bool)) → IsConsistent (run rs empty_store)
run-IsConsistent rs = run_from-IsConsistent rs empty_store empty_store-IsConsistent
