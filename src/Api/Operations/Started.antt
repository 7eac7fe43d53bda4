-- ===== src/Api/Operations/Started.antt =====
-- What the handlers that start an operation do to the store, whichever calls of the driver fail.
use opendash.Prelude.{
  ◌≡◌, refl, subst, ◌∷◌, String, Bool, true, false, not, ◌&&◌, ◌||◌, Option, none, some, List, ◌==◌,
  if◌then◌else◌, exists, arith, Result, ok, err, Bool-cases, inl, inr,
}
use opendash.Models.Time.{Time, unix}
use opendash.Models.Status.{OperationStatus, OperationKind}
use opendash.Models.App.{Operation, AppInstance}
use opendash.Sql.{Conn, query, try}
use opendash.Sql.Triple.{Triple, Outcome, Triple-pure, Triple-stmt, Triple-try, Triple-bind}
use opendash.Store.Rows.{OperationRow, StoreDb, StoreError, constraint_failed}
use opendash.Store.Operations.{
  active_for, app_known, is_active, insert_operation, create_operation,
  get_active_operation_for_app,
}
use opendash.Api.Operations.{
  Reply, refused, accepted, new_operation, get_instance, with_instance, start_operation,
  compose_action, is_active_found, reply_created,
}
use opendash.Api.Operations.Looked.{IsInstance, instance_id, IsLooked, look-Triple}
use opendash.Api.Operations.Settled.{created}

abbrev pub IsAdded : Time → Operation → StoreDb → StoreDb → Type 0
IsAdded now op d0 d =
    (app_known d0 op.app_id ≡ true)
    × (exists (active_for op.app_id) d0.operations ≡ false)
    × (d ≡ created now op d0)

-- The application had no active operation, and the operation, which is pending and of the application, was added.
abbrev pub IsStarted :
    Time → String → OperationKind → String → Operation → StoreDb → StoreDb → Type 0
IsStarted now op_id kind id op d0 d =
    (exists (active_for id) d0.operations ≡ false)
    × (op ≡ record {
      id = op_id;
      app_id = id;
      kind = kind;
      status = OperationStatus.pending;
      error = "";
      output = "";
      created_at = now;
      updated_at = now;
    })
    × (d ≡ record d0 {
      operations =
          record {
            id = op_id;
            app_id = id;
            kind = kind;
            status = OperationStatus.pending;
            error = "";
            output = "";
            created_at = unix now;
            updated_at = unix now;
          }
          ∷ d0.operations;
    })

pub added-IsStarted :
    (now : Time) (op_id : String) (kind : OperationKind) (id app_id : String) (d0 d : StoreDb)
    → app_id ≡ id
    → IsAdded now (new_operation now op_id app_id kind) d0 d
    → IsStarted now op_id kind id (new_operation now op_id app_id kind) d0 d
added-IsStarted now op_id kind id app_id d0 d same (known, idle, e) =
    subst (λ x. IsStarted now op_id kind x (new_operation now op_id app_id kind) d0 d) same
      (idle, refl, e)

-- What a reply says: a refusal, that nothing was changed; an acceptance, that the application with the id was found and had no
-- active operation, and that its pending operation was added.
abbrev pub IsAnswer : Time → String → OperationKind → String → StoreDb → Reply → StoreDb → Type 0
IsAnswer now op_id kind id d0 (refused status code) d = d ≡ d0
IsAnswer now op_id kind id d0 (accepted op inst) d =
    IsInstance id inst d0 × IsStarted now op_id kind id op d0 d

pub create-Triple :
    (now : Time) (op : Operation) (d0 : StoreDb)
    → is_active op.status ≡ true
    → Triple (λ d. d ≡ d0) (create_operation now op) (λ _ d. IsAdded now op d0 d) (λ _ d. d ≡ d0)
unfolding create_operation insert_operation
create-Triple now op d0 a = Triple-stmt _ _ (λ d h. rw h go) (λ d h. h)
  where
    guard : Bool
    guard =
        exists (λ (r : OperationRow). r.id == op.id) d0.operations
        || not (app_known d0 op.app_id)
        || (is_active op.status && exists (active_for op.app_id) d0.operations)

    go :
        let z : Result StoreError (Unit {0}) × StoreDb =
          if guard then (err constraint_failed, d0) else (ok tt, created now op d0) in
        Outcome (λ _ d. IsAdded now op d0 d) (λ _ d. d ≡ d0) z.0 z.1
    go = elim (Bool-cases guard) [
      | inl e ↦ rw e refl
      | inr e ↦ rw e (ground (arith, rw a at e), ground (arith, rw a at e), refl)
    ]

read-Triple :
    {A : Type 0} (io : StoreError) (f : StoreDb → Result StoreError A) (d0 : StoreDb)
    {R : StoreError → StoreDb → Type 0}
    → Triple {E = StoreError} (λ d. d ≡ d0) (try (query io f)) (λ _ d. d ≡ d0) R
read-Triple {A} io f d0 = Triple-try (Triple-stmt _ _ (λ d h. go d (f d) h) (λ d h. h))
  where
    go :
        (d : StoreDb) (r : Result StoreError A)
        → d ≡ d0
        → Outcome (λ _ d. d ≡ d0) (λ (_ : StoreError) d. d ≡ d0) r d
    go d (ok x) h = h
    go d (err e) h = h

abbrev IsCreated : Time → Operation → StoreDb → Option (Unit {0}) → StoreDb → Type 0
IsCreated now op d0 none d = d ≡ d0
IsCreated now op d0 (some u) d = IsAdded now op d0 d

reply-IsAnswer :
    (now : Time) (op_id : String) (kind : OperationKind) (id : String) (inst : AppInstance)
    (d0 : StoreDb) (o : Option (Unit {0})) (d : StoreDb)
    → IsInstance id inst d0
    → IsCreated now (new_operation now op_id inst.id kind) d0 o d
    → IsAnswer now op_id kind id d0 (reply_created (new_operation now op_id inst.id kind) inst o) d
reply-IsAnswer now op_id kind id inst d0 none d k h = h
reply-IsAnswer now op_id kind id inst d0 (some u) d k h =
    (k, added-IsStarted now op_id kind id inst.id d0 d (instance_id id inst d0 k) h)

start-Triple :
    (newest_first : List OperationRow → List OperationRow) (now : Time) (op_id : String)
    (kind : OperationKind) (id : String) (inst : AppInstance) (d0 : StoreDb)
    → IsInstance id inst d0
    → Triple
        (λ d. d ≡ d0)
        (start_operation newest_first now op_id kind inst)
        (IsAnswer now op_id kind id d0)
        (λ _ _. ⊥)
unfolding start_operation get_active_operation_for_app
start-Triple newest_first now op_id kind id inst d0 k =
    let op = new_operation now op_id inst.id kind in
    Triple-bind {Q = λ _ d. d ≡ d0} (read-Triple _ _ d0) λ active.
      elim (Bool-cases (is_active_found active)) [
        | inl e ↦ rw e (Triple-pure (refused 409 "operation_in_progress") (λ d h. h))
        | inr e ↦ rw e (
            Triple-bind {Q = IsCreated now op d0} (Triple-try (create-Triple now op d0 refl)) λ o.
              Triple-pure (reply_created op inst o)
                (λ d. reply-IsAnswer now op_id kind id inst d0 o d k))
      ]

compose-Triple :
    (newest_first : List OperationRow → List OperationRow) (now : Time) (op_id : String)
    (kind : OperationKind) (id : String) (d0 : StoreDb)
    → Triple
        (λ d. d ≡ d0)
        (compose_action newest_first now op_id kind id)
        (IsAnswer now op_id kind id d0)
        (λ _ _. ⊥)
unfolding compose_action get_instance
compose-Triple newest_first now op_id kind id d0 = elim (Bool-cases (id == "")) [
  | inl e ↦ rw e (Triple-pure (refused 400 "missing_id") (λ d h. h))
  | inr e ↦ rw e (Triple-bind {Q = IsLooked id d0} (Triple-try (look-Triple id d0)) found)
]
  where
    found :
        (inst : Option AppInstance)
        → Triple
            (IsLooked id d0 inst)
            (with_instance inst (start_operation newest_first now op_id kind))
            (IsAnswer now op_id kind id d0)
            (λ _ _. ⊥)
    found none = Triple-pure (refused 404 "not_found") (λ d h. h)
    found (some inst) = record {
      at = λ c p. (start-Triple newest_first now op_id kind id inst d0 p.1).at c p.0;
    }

-- Whichever calls of the driver fail, the handlers that start an operation return a reply. Where they refuse, the store is as it was;
-- where they accept, the application with the requested id exists and had no active operation, and a pending operation
-- of it, of the requested kind and with the new id, was added and nothing else changed.
pub compose_action-IsAnswer :
    (newest_first : List OperationRow → List OperationRow) (now : Time) (op_id : String)
    (kind : OperationKind) (id : String) (c : Conn StoreDb)
    → (reply : Reply) × ((compose_action newest_first now op_id kind id c).0 ≡ ok reply)
      × IsAnswer now op_id kind id c.db reply (compose_action newest_first now op_id kind id c).1.db
compose_action-IsAnswer newest_first now op_id kind id c =
    go (compose_action newest_first now op_id kind id c).0
      ((compose-Triple newest_first now op_id kind id c.db).at c refl)
  where
    d' : StoreDb
    d' = (compose_action newest_first now op_id kind id c).1.db

    go :
        (r : Result StoreError Reply)
        → Outcome (IsAnswer now op_id kind id c.db) (λ _ _. ⊥) r d'
        → (reply : Reply) × (r ≡ ok reply) × IsAnswer now op_id kind id c.db reply d'
    go (ok reply) h = (reply, refl, h)
    go (err e) h = absurd h
