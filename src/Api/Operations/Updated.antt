-- ===== src/Api/Operations/Updated.antt =====
-- What an update of an operation does while the driver does not fail.
use opendash.Prelude.{
  ◌≡◌, refl, ◌∙◌, String, Bool, true, false, not, ◌&&◌, List, [], ◌∷◌, ◌==◌, exists, update_if,
  count_if, arith, nat_eq, Bool-cases, inl, inr,
}
use opendash.Models.Time.{Time, unix}
use opendash.Models.App.{Operation}
use opendash.Sql.Returns.{Returns, Returns-pure, Returns-stmt, Returns-bind, Returns-if}
use opendash.Store.Rows.{OperationRow, StoreDb}
use opendash.Store.Operations.{
  is_active, active_for, two_active, update_operations, update_operation,
}

-- Rows of the operation, of which one is there, and all are active; and the index holds.
abbrev pub IsOpen : String → StoreDb → Type 0
IsOpen id d =
    (two_active d.operations ≡ false)
    × (exists (λ (r : OperationRow). r.id == id && not (is_active r.status)) d.operations ≡ false)
    × (exists (λ (r : OperationRow). r.id == id) d.operations ≡ true)

-- the row that UpdateOperation leaves
abbrev pub changed_row : Time → Operation → OperationRow → OperationRow
changed_row now op r = record r {
  status = op.status;
  error = op.error;
  output = op.output;
  updated_at = unix now;
}

abbrev pub changed : Time → Operation → StoreDb → StoreDb
changed now op d = record d {
  operations = update_if (λ r. r.id == op.id) (changed_row now op) d.operations;
}

-- a change of rows that keeps their applications
module _ (p : OperationRow → Bool) (f : OperationRow → OperationRow)
    (keeps : (r : OperationRow) → (f r).app_id ≡ r.app_id) where
  active-updated :
      (app : String) (rows : List OperationRow)
      → exists (λ r. p r && not (is_active r.status)) rows ≡ false
      → exists (active_for app) rows ≡ false
      → exists (active_for app) (update_if p f rows) ≡ false
  unfolding exists update_if
  active-updated app [] h n = refl
  active-updated app (r ∷ rows) h n = elim (Bool-cases (p r)) [
    | inl e ↦
        (let active : is_active r.status ≡ true = ground (arith, rw e at h) in
          rw (e, keeps r) (ground (arith, rw active at n, active-updated app rows)))
    | inr e ↦ rw e (ground (arith, active-updated app rows))
  ]

  two_active-updated :
      (rows : List OperationRow)
      → exists (λ r. p r && not (is_active r.status)) rows ≡ false
      → two_active rows ≡ false
      → two_active (update_if p f rows) ≡ false
  unfolding exists update_if two_active
  two_active-updated [] h n = refl
  two_active-updated (r ∷ rows) h n = elim (Bool-cases (p r)) [
    | inl e ↦
        (let active : is_active r.status ≡ true = ground (arith, rw e at h) in
          rw (e, keeps r)
            (ground (arith, rw active at n, active-updated r.app_id rows, two_active-updated rows)))
    | inr e ↦ rw e (ground (arith, active-updated r.app_id rows, two_active-updated rows))
  ]

count_if-exists :
    (p : OperationRow → Bool) (rows : List OperationRow)
    → exists p rows ≡ true
    → nat_eq (count_if p rows) 0 ≡ false
unfolding exists count_if
count_if-exists p [] h = cc
count_if-exists p (r ∷ rows) h = ground (arith, count_if-exists p rows)

exists-changed :
    (now : Time) (op : Operation) (rows : List OperationRow)
    → exists (λ r. r.id == op.id) (update_if (λ r. r.id == op.id) (changed_row now op) rows)
      ≡ exists (λ r. r.id == op.id) rows
unfolding exists update_if
exists-changed now op [] = refl
exists-changed now op (r ∷ rows) = elim (Bool-cases (r.id == op.id)) [
  | inl e ↦ rw (e, e) refl
  | inr e ↦ rw (e, e) (exists-changed now op rows)
]

changed_active :
    (now : Time) (op : Operation) (rows : List OperationRow)
    → is_active op.status ≡ true
    → exists
        (λ r. r.id == op.id && not (is_active r.status))
        (update_if (λ r. r.id == op.id) (changed_row now op) rows)
      ≡ false
unfolding exists update_if
changed_active now op [] a = refl
changed_active now op (r ∷ rows) a = elim (Bool-cases (r.id == op.id)) [
  | inl e ↦ rw (e, e, a) (changed_active now op rows a)
  | inr e ↦ rw (e, e) (changed_active now op rows a)
]

pub changed-IsOpen :
    (now : Time) (op : Operation) (d : StoreDb)
    → is_active op.status ≡ true
    → IsOpen op.id d
    → IsOpen op.id (changed now op d)
changed-IsOpen now op d a h = (
  two_active-updated _ (changed_row now op) (λ r. refl) d.operations h.1 h.0,
  changed_active now op d.operations a,
  exists-changed now op d.operations ∙ h.2,
)

pub update-Returns :
    (now : Time) (op : Operation) (d : StoreDb)
    → IsOpen op.id d
    → Returns (update_operation now op) d tt (changed now op d)
unfolding update_operation update_operations
update-Returns now op d h =
    Returns-bind _
      (Returns-stmt _ _
        (rw (two_active-updated _ (changed_row now op) (λ r. refl) d.operations h.1 h.0) refl))
      (Returns-if _ _ (count_if-exists _ d.operations h.2) (Returns-pure tt _))
