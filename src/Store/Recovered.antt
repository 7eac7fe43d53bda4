-- ===== src/Store/Recovered.antt =====
-- What a restart does to the operations that it interrupted.
use opendash.Prelude.{
  ◌≡◌, refl, String, Bool, true, false, none, List, [], ◌∷◌, arith, ◌==◌, keep, exists, update_if,
  Bool-cases, inl, inr, Result, ok, ap, ◌∙◌,
}
use opendash.Models.Time.{Time}
use opendash.Models.App.{Operation}
use opendash.Sql.{Conn, stmt, ◌>>=◌}
use opendash.Store.Rows.{OperationRow, StoreDb, StoreError}
use opendash.Store.Operations.{
  is_active, active_for, app_known, two_active, interrupted, recover_operations, create_operation,
  update_operations, insert_operation, get_active_operation_for_app,
}

abbrev any_active : List OperationRow → Bool
any_active rows = exists (λ (r : OperationRow). is_active r.status) rows

abbrev recovered : Time → List OperationRow → List OperationRow
recovered now rows = update_if (λ (r : OperationRow). is_active r.status) (interrupted now) rows

none_active : (now : Time) (rows : List OperationRow) → any_active (recovered now rows) ≡ false
unfolding exists update_if
none_active now [] = refl
none_active now (r ∷ rows) = elim (Bool-cases (is_active r.status)) [
  | inl e ↦ rw e (none_active now rows)
  | inr e ↦ rw (e, e) (none_active now rows)
]

inactive-two_active : (rows : List OperationRow) → any_active rows ≡ false → two_active rows ≡ false
unfolding two_active exists
inactive-two_active [] h = refl
inactive-two_active (r ∷ rows) h = ground (arith, inactive-two_active rows)

inactive-active_for :
    (app : String) (rows : List OperationRow)
    → any_active rows ≡ false
    → exists (active_for app) rows ≡ false
unfolding exists
inactive-active_for app [] h = refl
inactive-active_for app (r ∷ rows) h = ground (arith, inactive-active_for app rows)

inactive-keep :
    (app : String) (rows : List OperationRow)
    → any_active rows ≡ false
    → keep (active_for app) rows ≡ []
unfolding exists keep
inactive-keep app [] h = refl
inactive-keep app (r ∷ rows) h = ground (arith, inactive-keep app rows)

-- A recovery keeps the ids of the operations.
exists-recovered :
    (now : Time) (id : String) (rows : List OperationRow)
    → exists (λ (r : OperationRow). r.id == id) (recovered now rows)
      ≡ exists (λ (r : OperationRow). r.id == id) rows
unfolding exists update_if
exists-recovered now id [] = refl
exists-recovered now id (r ∷ rows) = elim (Bool-cases (is_active r.status)) [
  | inl e ↦ rw (e, exists-recovered now id rows)
  | inr e ↦ rw (e, exists-recovered now id rows)
]

recover_runs :
    (now : Time) (db : StoreDb)
    → recover_operations now (record { db = db; faults = [] })
      ≡ (ok tt, record { db = record db { operations = recovered now db.operations }; faults = [] })
unfolding recover_operations update_operations ◌>>=◌
recover_runs now db = rw (inactive-two_active _ (none_active now db.operations))

get_active-none :
    (newest_first : List OperationRow → List OperationRow) (app : String) (db : StoreDb)
    → newest_first [] ≡ []
    → any_active db.operations ≡ false
    → (get_active_operation_for_app newest_first app (record { db = db; faults = [] })).0 ≡ ok none
unfolding get_active_operation_for_app stmt
get_active-none newest_first app db empty h = rw (inactive-keep app db.operations h, empty)

create_inactive :
    (later : Time) (op : Operation) (db : StoreDb)
    → any_active db.operations ≡ false
    → app_known db op.app_id ≡ true
    → exists (λ (r : OperationRow). r.id == op.id) db.operations ≡ false
    → (create_operation later op (record { db = db; faults = [] })).0 ≡ ok tt
unfolding create_operation insert_operation stmt
create_inactive later op db h known fresh =
    rw (fresh, known, inactive-active_for op.app_id db.operations h) (ground arith)

abbrev pub after_recovery : Time → StoreDb → Conn StoreDb
after_recovery now db = (recover_operations now (record { db = db; faults = [] })).1

recovered_conn :
    (now : Time) (db : StoreDb)
    → after_recovery now db
      ≡ record { db = record db { operations = recovered now db.operations }; faults = [] }
recovered_conn now db =
    ap (λ (z : Result StoreError (Unit {0}) × Conn StoreDb). z.1) (recover_runs now db)

-- The recovery of a database that does not fail returns, whatever operations it finds. For an operation
-- of an application that is known, with an id that is not in use, and where the engine orders no rows as
-- no rows: the application then has no active operation, and the operation can be created.
pub recover-unblocks :
    (now later : Time) (newest_first : List OperationRow → List OperationRow) (db : StoreDb)
    (op : Operation)
    → newest_first [] ≡ []
    → app_known db op.app_id ≡ true
    → exists (λ (r : OperationRow). r.id == op.id) db.operations ≡ false
    → ((recover_operations now (record { db = db; faults = [] })).0 ≡ ok tt)
      × ((get_active_operation_for_app newest_first op.app_id (after_recovery now db)).0 ≡ ok none)
      × ((create_operation later op (after_recovery now db)).0 ≡ ok tt)
recover-unblocks now later newest_first db op empty known fresh =
    let db' : StoreDb = record db { operations = recovered now db.operations } in
    let idle : any_active db'.operations ≡ false = none_active now db.operations in
    let fresh' : exists (λ (r : OperationRow). r.id == op.id) db'.operations ≡ false =
      exists-recovered now op.id db.operations ∙ fresh in
    (
      ap (λ (z : Result StoreError (Unit {0}) × Conn StoreDb). z.0) (recover_runs now db),
      rw (recovered_conn now db) (get_active-none newest_first op.app_id db' empty idle),
      rw (recovered_conn now db) (create_inactive later op db' idle known fresh'),
    )
