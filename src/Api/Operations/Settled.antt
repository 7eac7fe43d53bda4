-- ===== src/Api/Operations/Settled.antt =====
-- A created operation that its goroutine has run, while the driver does not fail.
use opendash.Prelude.{
  ◌≡◌, refl, sym, ◌∙◌, String, if◌then◌else◌, Bool, true, false, not, ◌&&◌, ◌||◌, Option, List, [],
  ◌∷◌, ◌==◌, eq_iff, exists, update_if, find_first, arith, ok, Bool-cases, inl, inr,
}
use Prim.Native.String.{◌++◌ as ◌<>◌}
use opendash.Models.Time.{Time, unix, from_unix}
use opendash.Models.Status.{OperationStatus}
use opendash.Models.App.{Operation, AppInstance}
use opendash.Sql.{stmt}
use opendash.Sql.Returns.{Returns, Returns-stmt, quiet}
use opendash.Store.Rows.{OperationRow, StoreDb}
use opendash.Store.Operations.{
  is_active, active_for, two_active, app_known, operation_row, insert_operation, create_operation,
  get_operation,
}
use opendash.Api.Redact.{redact_secrets}
use opendash.Api.Operations.{
  Ended, done, failed, cancelled, panicked, answered, Surroundings, run_operation, final_status,
  final_error,
}
use opendash.Api.Operations.Updated.{IsOpen, changed_row, changed}
use opendash.Api.Operations.Ends.{final, at_end, reported, stored_secrets, run-Returns}

pub update_if-miss :
    (p : OperationRow → Bool) (f : OperationRow → OperationRow) (rows : List OperationRow)
    → exists p rows ≡ false
    → update_if p f rows ≡ rows
unfolding exists update_if
update_if-miss p f [] h = refl
update_if-miss p f (r ∷ rows) h = ground (arith, update_if-miss p f rows)

exists_fewer :
    (p q : OperationRow → Bool) (rows : List OperationRow)
    → exists p rows ≡ false
    → exists (λ r. p r && q r) rows ≡ false
unfolding exists
exists_fewer p q [] h = refl
exists_fewer p q (r ∷ rows) h = ground (arith, exists_fewer p q rows)

-- the state behind the creation of an operation
abbrev pub created : Time → Operation → StoreDb → StoreDb
created t op d = record d { operations = operation_row t op ∷ d.operations }

abbrev pub IsFresh : Operation → StoreDb → Type 0
IsFresh op d =
    (exists (λ (r : OperationRow). r.id == op.id) d.operations ≡ false)
    × (exists (active_for op.app_id) d.operations ≡ false)

-- What a creation that succeeded says of the operations, and what it leaves.
pub create-inv :
    (t : Time) (op : Operation) (d : StoreDb)
    → is_active op.status ≡ true
    → (create_operation t op (quiet d)).0 ≡ ok tt
    → IsFresh op d × ((create_operation t op (quiet d)).1 ≡ quiet (created t op d))
unfolding create_operation insert_operation stmt
create-inv t op d a h =
    elim (Bool-cases (
      exists (λ (r : OperationRow). r.id == op.id) d.operations
      || not (app_known d op.app_id)
      || (is_active op.status && exists (active_for op.app_id) d.operations))) [
        | inl e ↦ absurd (ground (arith, rw e at h))
        | inr e ↦ ((ground (arith, rw a at e), ground (arith, rw a at e)), rw e refl)
      ]

pub created-IsOpen :
    (t : Time) (op : Operation) (d : StoreDb)
    → is_active op.status ≡ true
    → two_active d.operations ≡ false
    → IsFresh op d
    → IsOpen op.id (created t op d)
unfolding two_active exists
created-IsOpen t op d a h (fresh, idle) = (
  rw (a, idle, h) refl,
  rw (a, (eq_iff op.id op.id).1 refl)
      (exists_fewer (λ (r : OperationRow). r.id == op.id) (λ r. not (is_active r.status))
        d.operations fresh),
  rw ((eq_iff op.id op.id).1 refl) refl,
)

-- how the operation of a runtime's answer ends
abbrev pub end_status : Ended → OperationStatus
end_status (done status) = OperationStatus.completed
end_status (failed e) = OperationStatus.failed
end_status (cancelled e) = OperationStatus.cancelled
end_status (panicked e) = OperationStatus.failed

abbrev pub end_message : Ended → String
end_message (done status) = ""
end_message (failed e) = e
end_message (cancelled e) = e
end_message (panicked e) = "internal error: " <> e

-- the row of the operation with a status and a message, from which the secrets are removed
abbrev pub row_with :
    Surroundings → Time → Operation → OperationStatus → String → StoreDb → OperationRow
row_with s t op status message d = record {
  id = op.id;
  app_id = op.app_id;
  kind = op.kind;
  status = status;
  error = redact_secrets s.longest_first (stored_secrets s op.app_id d) message;
  output = redact_secrets s.longest_first (stored_secrets s op.app_id d) "";
  created_at = unix t;
  updated_at = unix s.now;
}

-- the row at the end: final, or running where the context had ended before
abbrev pub ended_row : Surroundings → Time → Operation → Ended → StoreDb → OperationRow
ended_row s t op e d =
    if s.context_ended
    then row_with s t op OperationStatus.running "" d
    else row_with s t op (end_status e) (end_message e) d

final_inactive : (e : Ended) → is_active (end_status e) ≡ false
final_inactive (done status) = refl
final_inactive (failed e) = refl
final_inactive (cancelled e) = refl
final_inactive (panicked e) = refl

final-row_with :
    (s : Surroundings) (t : Time) (op : Operation) (e : Ended) (d : StoreDb)
    → row_with s t op (final_status e) (final_error e) d
      ≡ row_with s t op (end_status e) (end_message e) d
final-row_with s t op (done status) d = refl
final-row_with s t op (failed e) d = refl
final-row_with s t op (cancelled e) d = refl
final-row_with s t op (panicked e) d = refl

pub changed_head :
    (now : Time) (op : Operation) (r : OperationRow) (rows : List OperationRow) (d : StoreDb)
    → r.id ≡ op.id
    → exists (λ (r : OperationRow). r.id == op.id) rows ≡ false
    → d.operations ≡ r ∷ rows
    → (changed now op d).operations ≡ changed_row now op r ∷ rows
unfolding update_if
changed_head now op r rows d same fresh e =
    rw (e, (eq_iff r.id op.id).1 same, update_if-miss _ (changed_row now op) rows fresh) refl

ended-operations :
    (s : Surroundings) (t : Time) (op : Operation) (e : Ended) (d : StoreDb)
    → IsFresh op d
    → (at_end s.context_ended s (final s op e d) (
        changed s.now
          (reported s (stored_secrets s op.app_id d) op OperationStatus.running "")
          (created t op d))).operations
      ≡ ended_row s t op e d ∷ d.operations
ended-operations s t op e d (fresh, idle) =
    let running = reported s (stored_secrets s op.app_id d) op OperationStatus.running "" in
    let d1 = changed s.now running (created t op d) in
    let start =
      changed_head s.now running (operation_row t op) d.operations (created t op d) refl fresh
        refl in
    elim (Bool-cases s.context_ended) [
      | inl c ↦ rw c start
      | inr c ↦
          rw (c, sym (final-row_with s t op e d))
            (changed_head s.now (final s op e d) (row_with s t op OperationStatus.running "" d)
              d.operations d1 refl fresh start)
    ]

ended_idle :
    (s : Surroundings) (t : Time) (op : Operation) (e : Ended) (d : StoreDb)
    → IsFresh op d
    → exists (active_for op.app_id) (ended_row s t op e d ∷ d.operations) ≡ s.context_ended
unfolding exists
ended_idle s t op e d (fresh, idle) = elim (Bool-cases s.context_ended) [
  | inl c ↦ rw (c, idle, (eq_iff op.app_id op.app_id).1 refl) refl
  | inr c ↦ rw (c, final_inactive e, idle) (ground arith)
]

abbrev pub shown_row : OperationRow → Operation
shown_row r = record {
  id = r.id;
  app_id = r.app_id;
  kind = r.kind;
  status = r.status;
  error = r.error;
  output = r.output;
  created_at = from_unix r.created_at;
  updated_at = from_unix r.updated_at;
}

ended_id :
    (s : Surroundings) (t : Time) (op : Operation) (e : Ended) (d : StoreDb)
    → ((ended_row s t op e d).id == op.id) ≡ true
ended_id s t op e d = elim (Bool-cases s.context_ended) [
  | inl c ↦ rw c ((eq_iff op.id op.id).1 refl)
  | inr c ↦ rw c ((eq_iff op.id op.id).1 refl)
]

get-ended :
    (s : Surroundings) (t : Time) (op : Operation) (e : Ended) (d d' : StoreDb)
    → d'.operations ≡ ended_row s t op e d ∷ d.operations
    → Returns (get_operation op.id) d' (shown_row (ended_row s t op e d)) d'
unfolding get_operation find_first
get-ended s t op e d d' h = Returns-stmt _ _ (rw (h, ended_id s t op e d) refl)

-- A goroutine runs an operation that was created as active, in a store where no application has two active operations. It
-- returns, and the operation is read back: completed, failed or cancelled as the runtime answered, failed where it panicked, with
-- the error in which the secrets are masked. But where the goroutine's context has ended when the work is done, as it has after a
-- cancellation, the operation is read back as running. Its application has an active operation then exactly in that case, and no
-- other operation is changed. The driver is assumed not to fail otherwise.
pub action-settles :
    (s : Surroundings) (t : Time) (op : Operation) (inst : Option AppInstance) (e : Ended)
    (d : StoreDb)
    → is_active op.status ≡ true
    → two_active d.operations ≡ false
    → (create_operation t op (quiet d)).0 ≡ ok tt
    → let d1 = (create_operation t op (quiet d)).1.db in
      (d2 : StoreDb) × Returns (run_operation s op inst (answered e)) d1 tt d2
      × Returns (get_operation op.id) d2 (shown_row (ended_row s t op e d)) d2
      × (d2.operations ≡ ended_row s t op e d ∷ d.operations)
      × (exists (active_for op.app_id) d2.operations ≡ s.context_ended)
action-settles s t op inst e d a two h =
    let (fresh, c) = create-inv t op d a h in
    let (d2, r, same) =
      run-Returns s op inst e (created t op d) (created-IsOpen t op d a two fresh) in
    let ops = same ∙ ended-operations s t op e d fresh in
    (d2, rw c r, get-ended s t op e d d2 ops, ops, rw ops (ended_idle s t op e d fresh))
