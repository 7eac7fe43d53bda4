-- ===== src/Api/Operations/Uninstalled.antt =====
-- What an uninstallation leaves of its operation.
use opendash.Prelude.{
  ◌≡◌, refl, String, Bool, true, false, not, ◌&&◌, Option, none, some, List, [], ◌∷◌, ◌==◌, eq_iff,
  exists, keep, count_if, find_first, arith, ok, Bool-cases, inl, inr, nat_eq, exists-keep,
}
use opendash.Models.Time.{Time}
use opendash.Models.Status.{OperationStatus, AppInstanceStatus}
use opendash.Models.App.{Operation}
use opendash.Sql.{try}
use opendash.Sql.Returns.{
  Returns, Fails, Returns-pure, Returns-stmt, Fails-stmt, Returns-bind, Returns-try,
  Returns-try_err, Returns-if, Fails-bind, Fails-bind_first, Fails-raise, quiet,
}
use opendash.Store.Rows.{
  InstanceRow, OperationRow, StoreDb, operation_not_found, app_not_found, constraint_failed,
  database_failed,
}
use opendash.Store.Apps.{delete_instance, delete_app_instance}
use opendash.Store.Operations.{
  is_active, two_active, operation_row, create_operation, update_operation, update_operations,
  get_operation,
}
use opendash.Api.Operations.{in_context, done, Surroundings, run_operation, uninstall, report}
use opendash.Api.Operations.Updated.{changed_row, changed}
use opendash.Api.Operations.Ends.{reported, stored_secrets, secrets-Returns, report-Returns}
use opendash.Api.Operations.Settled.{
  update_if-miss, IsFresh, created, create-inv, created-IsOpen, changed_head,
}

count_if-none :
    (p : OperationRow → Bool) (rows : List OperationRow)
    → exists p rows ≡ false
    → count_if p rows ≡ 0
unfolding exists count_if
count_if-none p [] h = refl
count_if-none p (r ∷ rows) h = ground (arith, count_if-none p rows)

exists_fewer :
    (p q : OperationRow → Bool) (rows : List OperationRow)
    → exists p rows ≡ false
    → exists (λ r. q r && p r) rows ≡ false
unfolding exists
exists_fewer p q [] h = refl
exists_fewer p q (r ∷ rows) h = ground (arith, exists_fewer p q rows)

find_first-none :
    (p : OperationRow → Bool) (rows : List OperationRow)
    → exists p rows ≡ false
    → find_first p rows ≡ none
unfolding exists find_first
find_first-none p [] h = refl
find_first-none p (r ∷ rows) h = ground (arith, find_first-none p rows)

-- An update of an operation that is not there does nothing.
update_missing :
    (now : Time) (op : Operation) (d : StoreDb)
    → exists (λ (r : OperationRow). r.id == op.id) d.operations ≡ false
    → Returns (try (update_operation now op)) d none d
unfolding update_operation update_operations
update_missing now op d h = elim (Bool-cases (two_active d.operations)) [
  | inl e ↦ Returns-try_err {e = constraint_failed} (
      Fails-bind_first _
        (Fails-stmt _ _ (rw (update_if-miss _ (changed_row now op) d.operations h, e) refl)))
  | inr e ↦ Returns-try_err {e = operation_not_found op.id} (
      Fails-bind _ {a = 0}
        (Returns-stmt _ _ (
          rw
            (
              update_if-miss _ (changed_row now op) d.operations h,
              e,
              count_if-none _ d.operations h,
            )
            refl))
        (Fails-raise _ d))
]

missing_in_context :
    (ended : Bool) (now : Time) (op : Operation) (d : StoreDb)
    → exists (λ (r : OperationRow). r.id == op.id) d.operations ≡ false
    → Returns (try (in_context ended (update_operation now op))) d none d
missing_in_context true now op d h = Returns-try_err {e = database_failed} (Fails-raise _ d)
missing_in_context false now op d h = update_missing now op d h

delete-Returns :
    (id : String) (d : StoreDb)
    → (a : Option (Unit {0})) × Returns (try (delete_app_instance id)) d a (delete_instance id d).1
unfolding delete_app_instance delete_instance
delete-Returns id d =
    elim (Bool-cases (nat_eq (count_if (λ (r : InstanceRow). r.id == id) d.instances) 0)) [
      | inl e ↦ (
        none,
        Returns-try_err {e = app_not_found id}
            (Fails-bind _ (Returns-stmt _ _ refl) (rw e (Fails-raise _ _))),
      )
      | inr e ↦ (
        some tt,
        Returns-try (Returns-bind _ (Returns-stmt _ _ refl) (Returns-if _ _ e (Returns-pure tt _))),
      )
    ]

-- behind the report that the operation runs
abbrev running : Surroundings → Operation → StoreDb → StoreDb
running s op d =
    changed s.now (reported s (stored_secrets s op.app_id d) op OperationStatus.running "") d

-- No operation of the application is left, so none of the id.
uninstalled_gone :
    (s : Surroundings) (t : Time) (op : Operation) (d : StoreDb)
    → IsFresh op d
    → exists
        (λ (r : OperationRow). r.id == op.id)
        (delete_instance op.app_id (running s op (created t op d))).1.operations
      ≡ false
unfolding delete_instance exists keep
uninstalled_gone s t op d (fresh, idle) =
    rw
      (
        changed_head s.now (reported s (stored_secrets s op.app_id d) op OperationStatus.running "")
            (operation_row t op) d.operations (created t op d) refl fresh refl,
        (eq_iff op.app_id op.app_id).1 refl,
        exists-keep (λ (r : OperationRow). r.id == op.id)
            (λ (r : OperationRow). not (r.app_id == op.app_id)) d.operations,
      )
      (exists_fewer _ _ d.operations fresh)

-- An operation was created for an uninstallation, in a store where no application has two active operations and whose driver
-- does not fail. When the runtime has uninstalled the application, the goroutine returns, and the operation that the
-- client was told of cannot be found: it went with the application, and its completion is not stored.
pub uninstall-forgets :
    (s : Surroundings) (t : Time) (op : Operation) (d : StoreDb) (status : Option AppInstanceStatus)
    → is_active op.status ≡ true
    → two_active d.operations ≡ false
    → (create_operation t op (quiet d)).0 ≡ ok tt
    → let d1 = (create_operation t op (quiet d)).1.db in
      (d2 : StoreDb) × Returns
        (run_operation s op none (uninstall op.app_id (done status)))
        d1
        tt
        d2
      × Fails (get_operation op.id) d2 (operation_not_found op.id) d2
unfolding run_operation uninstall report get_operation
uninstall-forgets s t op d status a two h =
    let (fresh, c) = create-inv t op d a h in
    let d1 = created t op d in
    let d2 = (delete_instance op.app_id (running s op d1)).1 in
    let (u, r) = delete-Returns op.app_id (running s op d1) in
    let gone = uninstalled_gone s t op d fresh in
    (
      d2,
      rw c (
          Returns-bind _ (secrets-Returns s op.app_id d1) (
            Returns-bind _
              (report-Returns s (stored_secrets s op.app_id d1) op OperationStatus.running "" d1
                (created-IsOpen t op d a two fresh))
              (Returns-bind _ (Returns-bind _ r (Returns-pure (done none) d2)) (
                Returns-bind _ (missing_in_context s.context_ended s.now _ d2 gone)
                  (Returns-bind _ (Returns-pure tt d2) (Returns-pure tt d2)))))),
      Fails-stmt _ _ (rw (find_first-none _ d2.operations gone) refl),
    )
