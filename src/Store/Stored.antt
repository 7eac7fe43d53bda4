-- ===== src/Store/Stored.antt =====
-- What is read back of an application that was created, and of one that was deleted.
use opendash.Prelude.{
  ℕ, ◌≡◌, refl, sym, ap, String, Bool, true, false, ◌||◌, not, List, [], ◌∷◌, arith, eq_iff, ◌==◌,
  nat_eq, keep, exists, Bool-cases, inl, inr, ok, err, find_first, find_first-keep_miss,
}
use opendash.Models.Time.{Time, unix, from_unix}
use opendash.Models.Status.{SourceTrust}
use opendash.Models.App.{AppInstance}
use opendash.Sql.{Conn, stmt}
use opendash.Sql.Triple.{
  Triple, Outcome, Triple-pure, Triple-raise, Triple-stmt, Triple-bind, Triple-if, Triple-ok,
}
use opendash.Store.Rows.{
  InstanceRow, OperationRow, RevisionRow, ScheduleRow, ArchiveRow, StoreDb, StoreError,
  app_not_found, revision_not_found, schedule_not_found,
}
use opendash.Store.Apps.{
  null_text, text_or_empty, instance_row, scan_instance, instance_clash, source_known,
  insert_instance, delete_instance, archive_left, create_app_instance, get_app_instance,
  delete_app_instance, require_affected,
}
use opendash.Store.Operations.{list_operations_for_app, get_latest_revision}
use opendash.Store.Backups.{list_backup_archives, get_backup_schedule}

abbrev pub settled : StoreDb → Conn StoreDb
settled db = record { db = db; faults = [] }

-- the application with the times of the store, cut to the second, and without the trust, which the
-- store does not keep
abbrev pub as_stored : Time → AppInstance → AppInstance
as_stored now a = record a {
  trust = SourceTrust.other "";
  created_at = from_unix (unix now);
  updated_at = from_unix (unix now);
}

text-null : (s : String) → text_or_empty (null_text s) ≡ s
text-null s = elim (Bool-cases (s == "")) [
  | inl e ↦ rw e (sym ((eq_iff s "").0 e))
  | inr e ↦ rw e refl
]

scan-instance_row :
    (now : Time) (a : AppInstance) → scan_instance (instance_row now a) ≡ as_stored now a
scan-instance_row now a = rw (text-null a.source_id)

create-inserted :
    (now : Time) (a : AppInstance) (d0 : StoreDb)
    → Triple
        (λ d. d ≡ d0)
        (create_app_instance now a)
        (λ _ d. d ≡ record d0 { instances = instance_row now a ∷ d0.instances })
        (λ _ _. Unit {0})
unfolding create_app_instance insert_instance
create-inserted now a d0 = Triple-stmt _ _ (λ d h. go d h) (λ d h. tt)
  where
    row : InstanceRow
    row = instance_row now a

    go :
        (d : StoreDb)
        → d ≡ d0
        → Outcome {E = StoreError} {A = Unit {0}}
            (λ _ d. d ≡ record d0 { instances = row ∷ d0.instances })
            (λ _ _. Unit {0})
            (insert_instance row d).0
            (insert_instance row d).1
    go d h =
        elim (Bool-cases
          (exists (instance_clash row) d.instances || not (source_known d.sources row.source_id))) [
            | inl clash ↦ rw clash tt
            | inr fresh ↦
                rw fresh (ap (λ (x : StoreDb). record x { instances = row ∷ x.instances }) h)
          ]

get-inserted :
    (row : InstanceRow) (db : StoreDb)
    → (get_app_instance row.id (settled (record db { instances = row ∷ db.instances }))).0
      ≡ ok (scan_instance row)
unfolding get_app_instance find_first stmt
get-inserted row db = rw ((eq_iff row.id row.id).1 refl)

-- An application that was created is read back by its id, while the driver does not fail, with all it
-- was created with but its trust, and with the time of the creation cut to the second.
pub get-create :
    (now : Time) (a : AppInstance) (c : Conn StoreDb)
    → (create_app_instance now a c).0 ≡ ok tt
    → (get_app_instance a.id (settled (create_app_instance now a c).1.db)).0 ≡ ok (as_stored now a)
get-create now a c e = rw (
  Triple-ok (create-inserted now a c.db) c refl e,
  get-inserted (instance_row now a) c.db,
  scan-instance_row,
)

require-same :
    (e : StoreError) (n : ℕ) (d0 : StoreDb)
    → Triple (λ d. d ≡ d0) (require_affected e n) (λ _ d. d ≡ d0) (λ _ _. Unit {0})
require-same e n d0 =
    Triple-if (nat_eq n 0) _ _ (λ _. Triple-raise _ (λ d h. tt)) (λ _. Triple-pure tt (λ d h. h))

delete-deleted :
    (id : String) (d0 : StoreDb)
    → Triple
        (λ d. d ≡ d0)
        (delete_app_instance id)
        (λ _ d. d ≡ (delete_instance id d0).1)
        (λ _ _. Unit {0})
unfolding delete_app_instance delete_instance
delete-deleted id d0 =
    Triple-bind {Q = λ _ d. d ≡ (delete_instance id d0).1}
      (Triple-stmt _ _ (λ d h. rw h refl) (λ d h. tt)) λ n. require-same _ n _

keep-gone :
    {A : Type 0} (p q : A → Bool) (xs : List A)
    → ((x : A) → q x ≡ true → p x ≡ false)
    → keep p (keep q xs) ≡ []
unfolding keep
keep-gone p q [] h = refl
keep-gone p q (x ∷ xs) h = ground (arith, h x, keep-gone p q xs h)

read_deleted :
    (id : String) (db : StoreDb) (operations_order : List OperationRow → List OperationRow)
    (revisions_order : List RevisionRow → List RevisionRow)
    (archives_order : List ArchiveRow → List ArchiveRow)
    → operations_order [] ≡ []
    → revisions_order [] ≡ []
    → archives_order [] ≡ []
    → let left = settled (delete_instance id db).1 in
      ((get_app_instance id left).0 ≡ err (app_not_found ""))
      × ((list_operations_for_app operations_order id left).0 ≡ ok [])
      × ((get_latest_revision revisions_order id left).0 ≡ err (revision_not_found id))
      × ((list_backup_archives archives_order id left).0 ≡ ok [])
      × ((get_backup_schedule id left).0 ≡ err (schedule_not_found id))
unfolding delete_instance get_app_instance list_operations_for_app get_latest_revision
    list_backup_archives get_backup_schedule stmt
read_deleted id db oo ro ao ho hr ha = (
  rw (
      find_first-keep_miss (λ (r : InstanceRow). r.id == id) (λ (r : InstanceRow). not (r.id == id))
        db.instances (λ r h. rw h)),
  rw (
    keep-gone (λ (r : OperationRow). r.app_id == id) (λ (r : OperationRow). not (r.app_id == id))
        db.operations (λ r h. ground arith),
    ho,
  ),
  rw (
    keep-gone (λ (r : RevisionRow). r.app_id == id) (λ (r : RevisionRow). not (r.app_id == id))
        db.revisions (λ r h. ground arith),
    hr,
  ),
  rw (
    keep-gone (λ (r : ArchiveRow). r.app_id == id) (archive_left id db.jobs) db.archives
        (λ r h. ground arith),
    ha,
  ),
  rw (
      find_first-keep_miss (λ (r : ScheduleRow). r.app_id == id)
        (λ (r : ScheduleRow). not (r.app_id == id)) db.schedules (λ r h. rw h)),
)

-- After a deletion that returned, and while the driver does not fail, neither the application nor any
-- operation, revision, backup archive or backup schedule of it can be read; the engine orders no rows
-- as no rows.
pub delete-gone :
    (id : String) (c : Conn StoreDb) (operations_order : List OperationRow → List OperationRow)
    (revisions_order : List RevisionRow → List RevisionRow)
    (archives_order : List ArchiveRow → List ArchiveRow)
    → operations_order [] ≡ []
    → revisions_order [] ≡ []
    → archives_order [] ≡ []
    → (delete_app_instance id c).0 ≡ ok tt
    → let left = settled (delete_app_instance id c).1.db in
      ((get_app_instance id left).0 ≡ err (app_not_found ""))
      × ((list_operations_for_app operations_order id left).0 ≡ ok [])
      × ((get_latest_revision revisions_order id left).0 ≡ err (revision_not_found id))
      × ((list_backup_archives archives_order id left).0 ≡ ok [])
      × ((get_backup_schedule id left).0 ≡ err (schedule_not_found id))
delete-gone id c oo ro ao ho hr ha e =
    rw (Triple-ok (delete-deleted id c.db) c refl e) (read_deleted id c.db oo ro ao ho hr ha)
