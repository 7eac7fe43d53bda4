-- ===== src/Api/Install/Inserted.antt =====
-- The ports that are released, and the rows that an installation adds.
use opendash.Prelude.{
  ◌≡◌, refl, sym, ◌∙◌, ◌⊎◌, inl, inr, Bool, true, not, ◌&&◌, ◌||◌, Option, none, some, [], ◌∷◌,
  Result, ok, err, ◌==◌, if◌then◌else◌, exists, keep, arith, Bool-cases,
}
use opendash.Prelude.Int.{ℤ, int_eq, int_eq_iff}
use opendash.Models.Time.{Time}
use opendash.Models.App.{AppInstance, Operation, Revision}
use opendash.Sql.{try, stmt}
use opendash.Sql.Triple.{Triple, Outcome, Triple-stmt, Triple-try}
use opendash.Store.Rows.{
  OperationRow, RevisionRow, StoreDb, StoreError, database_failed, constraint_failed,
}
use opendash.Store.Apps.{instance_row, instance_clash, source_known, insert_instance}
use opendash.Store.Operations.{
  operation_row, revision_row, insert_operation, insert_revision, app_known, is_active, active_for,
}
use opendash.Catalog.Allocate.{
  PortMap, Reserved, is_reserved, reserve_host_ports, release_host_ports,
}
use opendash.Api.Install.{release}

-- No port is reserved that was not reserved before.
abbrev pub IsReleased : Reserved → Reserved → Type 0
IsReleased before after = (p : ℤ) → (not (is_reserved p after) || is_reserved p before) ≡ true

-- the ports of a map
abbrev has_port : ℤ → PortMap → Bool
has_port p ports = exists (λ (e : ℤ × ℤ). int_eq e.1 p) ports

reserved-keep :
    (hp p : ℤ) (reserved : Reserved)
    → is_reserved p (keep (λ q. not (int_eq hp q)) reserved)
      ≡ (is_reserved p reserved && not (int_eq hp p))
unfolding is_reserved exists keep
reserved-keep hp p [] = refl
reserved-keep hp p (q ∷ reserved) =
    ground (arith, int_eq_iff hp p, int_eq_iff hp q, int_eq_iff p q, reserved-keep hp p reserved)

reserved-release :
    (ports : PortMap) (p : ℤ) (reserved : Reserved)
    → is_reserved p (release_host_ports ports reserved)
      ≡ (is_reserved p reserved && not (has_port p ports))
unfolding release_host_ports exists
reserved-release [] p reserved = ground arith
reserved-release ((cp, hp) ∷ ports) p reserved =
    reserved-release ports p (keep (λ q. not (int_eq hp q)) reserved)
    ∙ rw (reserved-keep hp p reserved) (ground arith)

reserved-added :
    (hp p : ℤ) (reserved : Reserved)
    → is_reserved p (if is_reserved hp reserved then reserved else hp ∷ reserved)
      ≡ (is_reserved p reserved || int_eq hp p)
unfolding is_reserved exists
reserved-added hp p reserved = elim (Bool-cases (exists (int_eq hp) reserved)) [
  | inl e ↦ elim (Bool-cases (int_eq hp p)) [
    | inl same ↦
        (let there : exists (int_eq p) reserved ≡ true = rw (sym ((int_eq_iff hp p).0 same)) e in
          rw (e, same, there) refl)
    | inr other ↦ rw (e, other) (ground arith)
  ]
  | inr e ↦ rw e (ground (arith, int_eq_iff hp p, int_eq_iff p hp))
]

reserved-reserve :
    (ports : PortMap) (p : ℤ) (reserved : Reserved)
    → is_reserved p (reserve_host_ports ports reserved)
      ≡ (is_reserved p reserved || has_port p ports)
unfolding reserve_host_ports is_reserved exists
reserved-reserve [] p reserved = ground arith
reserved-reserve ((cp, hp) ∷ ports) p reserved =
    reserved-reserve ports p (if is_reserved hp reserved then reserved else hp ∷ reserved)
    ∙ rw (reserved-added hp p reserved) (ground arith)

pub release-IsReleased :
    (ports : PortMap) (reserved : Reserved) → IsReleased reserved (release ports reserved)
release-IsReleased ports reserved p =
    rw
      (
        reserved-release ports p (reserve_host_ports ports reserved),
        reserved-reserve ports p reserved,
      )
      (ground arith)

-- the store with what a statement added, where it succeeded
abbrev pub after : (StoreDb → StoreDb) → Option (Unit {0}) → StoreDb → StoreDb
after g none d = d
after g (some u) d = g d

-- A statement that either is refused or adds a row.
pub insert-Triple :
    (f : StoreDb → Result StoreError (Unit {0}) × StoreDb) (g : StoreDb → StoreDb) (d1 : StoreDb)
    {R : StoreError → StoreDb → Type 0}
    → (f d1 ≡ (err constraint_failed, d1)) ⊎ (f d1 ≡ (ok tt, g d1))
    → Triple (λ d. d ≡ d1) (try (stmt database_failed f)) (λ o d. d ≡ after g o d1) R
insert-Triple f g d1 h = Triple-try (Triple-stmt _ _ (λ d e. rw e (go h)) (λ d e. e))
  where
    go :
        (f d1 ≡ (err constraint_failed, d1)) ⊎ (f d1 ≡ (ok tt, g d1))
        → Outcome (λ u d. d ≡ after g (some u) d1) (λ (_ : StoreError) d. d ≡ d1) (f d1).0 (f d1).1
    go (inl e) = rw e refl
    go (inr e) = rw e refl

abbrev pub with_row : Time → AppInstance → StoreDb → StoreDb
with_row now inst d = record d { instances = instance_row now inst ∷ d.instances }

abbrev pub with_revision_row : Time → Revision → StoreDb → StoreDb
with_revision_row now rev d = record d { revisions = revision_row now rev ∷ d.revisions }

abbrev pub with_operation_row : Time → Operation → StoreDb → StoreDb
with_operation_row now op d = record d { operations = operation_row now op ∷ d.operations }

pub insert_instance-cases :
    (now : Time) (inst : AppInstance) (d : StoreDb)
    → (insert_instance (instance_row now inst) d ≡ (err constraint_failed, d))
      ⊎ (insert_instance (instance_row now inst) d ≡ (ok tt, with_row now inst d))
unfolding insert_instance
insert_instance-cases now inst d =
    elim (Bool-cases (
      exists (instance_clash (instance_row now inst)) d.instances
      || not (source_known d.sources (instance_row now inst).source_id))) [
        | inl e ↦ inl (rw e refl)
        | inr e ↦ inr (rw e refl)
      ]

pub insert_revision-cases :
    (now : Time) (rev : Revision) (d : StoreDb)
    → (insert_revision (revision_row now rev) d ≡ (err constraint_failed, d))
      ⊎ (insert_revision (revision_row now rev) d ≡ (ok tt, with_revision_row now rev d))
unfolding insert_revision
insert_revision-cases now rev d =
    elim (Bool-cases
      (exists (λ (r : RevisionRow). r.id == rev.id) d.revisions || not (app_known d rev.app_id))) [
        | inl e ↦ inl (rw e refl)
        | inr e ↦ inr (rw e refl)
      ]

pub insert_operation-cases :
    (now : Time) (op : Operation) (d : StoreDb)
    → (insert_operation (operation_row now op) d ≡ (err constraint_failed, d))
      ⊎ (insert_operation (operation_row now op) d ≡ (ok tt, with_operation_row now op d))
unfolding insert_operation
insert_operation-cases now op d =
    elim (Bool-cases (
      exists (λ (r : OperationRow). r.id == op.id) d.operations
      || not (app_known d op.app_id)
      || (is_active op.status && exists (active_for op.app_id) d.operations))) [
        | inl e ↦ inl (rw e refl)
        | inr e ↦ inr (rw e refl)
      ]
