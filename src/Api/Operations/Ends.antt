-- ===== src/Api/Operations/Ends.antt =====
-- What the goroutine of an operation leaves in the store while the driver does not fail.
use opendash.Prelude.{
  ◌≡◌, refl, ◌∙◌, Bool, true, false, String, Option, none, some, ◌==◌, keep, update_if, count_if,
  ignore, nat_eq, Bool-cases, inl, inr,
}
use opendash.Models.Time.{Time}
use opendash.Models.Status.{OperationStatus, AppInstanceStatus, HealthStatus}
use opendash.Models.App.{Operation, AppInstance}
use opendash.Models.Runtime.{ObservedState}
use opendash.Sql.{pure, try, stmt, ◌>>=◌}
use opendash.Sql.Returns.{
  Returns, Returns-pure, Returns-stmt, Returns-bind, Returns-try, Returns-try_err,
  Returns-try-query, Returns-if, Fails-bind, Fails-raise,
}
use opendash.Store.Rows.{InstanceRow, RevisionRow, StoreDb, Store, database_failed, app_not_found}
use opendash.Store.Apps.{
  require_affected, update_instances, update_app_instance_status,
  update_app_instance_status_and_endpoints,
}
use opendash.Store.Operations.{get_latest_revision, found_revision, first_row}
use opendash.Api.Redact.{Texts, revision_secrets, secret_values_for_app, redact_secrets}
use opendash.Api.Observe.{observe_and_update_instance}
use opendash.Api.Operations.{
  Ended, done, failed, cancelled, panicked, answered, Surroundings, in_context, report,
  run_operation, final_status, final_error, set_status, set_new_status, observe, settle_instance,
}
use opendash.Api.Operations.Updated.{IsOpen, changed, changed-IsOpen, update-Returns}

-- A call that returns, and leaves the operations.
abbrev Leaves : {A : Type 0} → Store A → StoreDb → Type 0
Leaves {A} m d = (a : A) × (d' : StoreDb) × Returns m d a d' × (d'.operations ≡ d.operations)

Leaves-pure : {A : Type 0} (a : A) (d : StoreDb) → Leaves (pure a) d
Leaves-pure a d = (a, d, Returns-pure a d, refl)

Leaves-bind :
    {A B : Type 0} {m : Store A} (f : A → Store B) (d : StoreDb)
    → Leaves m d
    → ((a : A) (d' : StoreDb) → Leaves (f a) d')
    → Leaves (m >>= f) d
Leaves-bind f d (a, d', r, e) k =
    let (b, d'', r', e') = k a d' in (b, d'', Returns-bind f r r', e' ∙ e)

-- the ignored statement that changes rows of instances
Leaves-instances :
    (id : String) (f : InstanceRow → InstanceRow) (d : StoreDb)
    → Leaves
        (try (stmt database_failed (update_instances id f) >>= require_affected (app_not_found id)))
        d
unfolding update_instances
Leaves-instances id f d =
    let d' : StoreDb = record d {
      instances = update_if (λ (r : InstanceRow). r.id == id) f d.instances;
    } in
    elim (Bool-cases (nat_eq (count_if (λ (r : InstanceRow). r.id == id) d.instances) 0)) [
      | inl e ↦ (
        none,
        d',
        Returns-try_err {e = app_not_found id}
            (Fails-bind _ (Returns-stmt _ _ refl) (rw e (Fails-raise _ d'))),
        refl,
      )
      | inr e ↦ (
        some tt,
        d',
        Returns-try
            (Returns-bind _ (Returns-stmt _ _ refl) (Returns-if _ _ e (Returns-pure tt d'))),
        refl,
      )
    ]

Leaves-in_context :
    {A : Type 0} (ended : Bool) (m : Store A) (d : StoreDb)
    → Leaves (try m) d
    → Leaves (try (in_context ended m)) d
Leaves-in_context true m d h =
    (none, d, Returns-try_err {e = database_failed} (Fails-raise _ d), refl)
Leaves-in_context false m d h = h

Leaves-status :
    (ended : Bool) (now : Time) (id : String) (status : AppInstanceStatus) (d : StoreDb)
    → Leaves
        (try (in_context ended (update_app_instance_status now id status HealthStatus.unknown)))
        d
unfolding update_app_instance_status
Leaves-status ended now id status d = Leaves-in_context ended _ d (Leaves-instances id _ d)

Leaves-observed :
    (ended : Bool) (now : Time) (inst : AppInstance) (obs : ObservedState) (d : StoreDb)
    → Leaves (try (in_context ended (observe_and_update_instance now inst obs))) d
unfolding observe_and_update_instance update_app_instance_status_and_endpoints
Leaves-observed ended now inst obs d = Leaves-in_context ended _ d (Leaves-instances inst.id _ d)

Leaves-set_status :
    (s : Surroundings) (inst : Option AppInstance) (status : AppInstanceStatus) (d : StoreDb)
    → Leaves (set_status s inst status) d
Leaves-set_status s none status d = Leaves-pure tt d
Leaves-set_status s (some inst) status d =
    Leaves-bind _ d (Leaves-status s.context_ended s.now inst.id status d)
      (λ a d'. Leaves-pure tt d')

Leaves-set_new_status :
    (s : Surroundings) (inst : Option AppInstance) (status : Option AppInstanceStatus) (d : StoreDb)
    → Leaves (set_new_status s inst status) d
Leaves-set_new_status s inst none d = Leaves-pure tt d
Leaves-set_new_status s inst (some status) d = Leaves-set_status s inst status d

Leaves-observe :
    (s : Surroundings) (inst : Option AppInstance) (obs : Option ObservedState) (d : StoreDb)
    → Leaves (observe s inst obs) d
Leaves-observe s none obs d = Leaves-pure tt d
Leaves-observe s (some inst) none d = Leaves-pure tt d
Leaves-observe s (some inst) (some obs) d =
    Leaves-bind _ d (Leaves-observed s.context_ended s.now inst obs d) (λ a d'. Leaves-pure tt d')

Leaves-settle :
    (s : Surroundings) (inst : Option AppInstance) (e : Ended) (d : StoreDb)
    → Leaves (settle_instance s inst e) d
Leaves-settle s inst (done status) d =
    Leaves-bind _ d (Leaves-set_new_status s inst status d)
      (λ a d'. Leaves-observe s inst s.observed d')
Leaves-settle s inst (failed e) d = Leaves-set_status s inst AppInstanceStatus.error d
Leaves-settle s inst (cancelled e) d = Leaves-set_status s inst AppInstanceStatus.error d
Leaves-settle s inst (panicked e) d = Leaves-set_status s inst AppInstanceStatus.error d

-- the secrets that the goroutine finds
abbrev pub stored_secrets : Surroundings → String → StoreDb → Texts
stored_secrets s app_id d = revision_secrets s.decode (
    ignore (
      found_revision app_id
        (first_row (s.newest_first (keep (λ (r : RevisionRow). r.app_id == app_id) d.revisions)))))

pub secrets-Returns :
    (s : Surroundings) (app_id : String) (d : StoreDb)
    → Returns (secret_values_for_app s.newest_first s.decode app_id) d (stored_secrets s app_id d) d
unfolding secret_values_for_app get_latest_revision
secrets-Returns s app_id d = Returns-bind _ (Returns-try-query _ _ d) (Returns-pure _ d)

-- the operation with what `report` writes
abbrev pub reported : Surroundings → Texts → Operation → OperationStatus → String → Operation
reported s secrets op status message = record op {
  status = status;
  output = redact_secrets s.longest_first secrets "";
  error = redact_secrets s.longest_first secrets message;
  updated_at = s.now;
}

pub report-Returns :
    (s : Surroundings) (secrets : Texts) (op : Operation) (status : OperationStatus)
    (message : String) (d : StoreDb)
    → IsOpen op.id d
    → Returns
        (report s false secrets op status "" message)
        d
        (some tt)
        (changed s.now (reported s secrets op status message) d)
unfolding report
report-Returns s secrets op status message d h =
    Returns-try (update-Returns s.now (reported s secrets op status message) d h)

-- the operation at its end
abbrev pub final : Surroundings → Operation → Ended → StoreDb → Operation
final s op e d = reported s (stored_secrets s op.app_id d) op (final_status e) (final_error e)

-- The report at the end leaves the operation as it was where the context has ended.
abbrev pub at_end : Bool → Surroundings → Operation → StoreDb → StoreDb
at_end true s op d = d
at_end false s op d = changed s.now op d

end-Returns :
    (ended : Bool) (s : Surroundings) (secrets : Texts) (op : Operation) (status : OperationStatus)
    (message : String) (d : StoreDb)
    → IsOpen op.id d
    → (o : Option (Unit {0})) × Returns
        (report s ended secrets op status "" message)
        d
        o
        (at_end ended s (reported s secrets op status message) d)
unfolding report
end-Returns true s secrets op status message d h =
    (none, Returns-try_err {e = database_failed} (Fails-raise _ d))
end-Returns false s secrets op status message d h =
    (some tt, report-Returns s secrets op status message d h)

pub run-Returns :
    (s : Surroundings) (op : Operation) (inst : Option AppInstance) (e : Ended) (d : StoreDb)
    → IsOpen op.id d
    → (d' : StoreDb) × Returns (run_operation s op inst (answered e)) d tt d'
      × (d'.operations
          ≡ (at_end s.context_ended s (final s op e d) (
              changed s.now
                (reported s (stored_secrets s op.app_id d) op OperationStatus.running "")
                d)).operations)
unfolding run_operation
run-Returns s op inst e d h =
    let secrets = stored_secrets s op.app_id d in
    let running = reported s secrets op OperationStatus.running "" in
    let d1 = changed s.now running d in
    let open1 : IsOpen op.id d1 = changed-IsOpen s.now running d refl h in
    let (o, q) =
      end-Returns s.context_ended s secrets op (final_status e) (final_error e) d1 open1 in
    let (u, d', r, left) = Leaves-settle s inst e (at_end s.context_ended s (final s op e d) d1) in
    (
      d',
      Returns-bind _ (secrets-Returns s op.app_id d) (
          Returns-bind _ (report-Returns s secrets op OperationStatus.running "" d h)
            (Returns-bind _ (Returns-pure e d1) (Returns-bind _ q r))),
      left,
    )
