-- ===== src/Backup/Kept.antt =====
-- Which archives are left by the retention.
use opendash.Prelude.{
  ℕ, ◌+◌, ◌≡◌, refl, ap, ◌∙◌, String, Bool, true, false, ◌&&◌, ◌||◌, ltb, not, List, [], ◌∷◌, map,
  Result, ok, err, arith, eq_iff, ◌==◌, if◌then◌else◌, keep, exists, Bool-cases, inl, inr,
}
use opendash.Prelude.Int.{ℤ, pos, int_ltb, int_leb}
use opendash.Models.Time.{Time}
use opendash.Models.Backup.{BackupArchive}
use opendash.Sql.{Conn}
use opendash.Sql.Triple.{Triple, Outcome, Triple-pure, Triple-stmt, Triple-bind, Triple-ok}
use opendash.Store.Rows.{StoreDb, StoreError, ArchiveRow, Store}
use opendash.Store.Backups.{
  scan_archive, list_backup_archives, delete_backup_archive, delete_archive,
}
use opendash.Backup.Retention.{
  World, BackupError, store_conn, back, on_store, remove_file, cut_of, is_doomed, remove_archive,
  retention_loop, enforce_retention,
}

-- the archives from the index `i` that the retention removes
unfoldable doomed : ℤ → Time → ℕ → List BackupArchive → List BackupArchive
doomed count cut i [] = []
doomed count cut i (a ∷ arcs) =
    let rest = doomed count cut (i + 1) arcs in if is_doomed count cut i a then a ∷ rest else rest

abbrev delete_all : List BackupArchive → StoreDb → StoreDb
delete_all [] db = db
delete_all (a ∷ arcs) db = delete_all arcs (delete_archive a.id db).1

-- A triple of the store, for the store in the world.
on_store-Triple :
    {A : Type 0} {m : Store A} {P : StoreDb → Type 0} {Q : A → StoreDb → Type 0}
    {R : StoreError → StoreDb → Type 0}
    → Triple P m Q R
    → Triple (λ (w : World). P w.db) (on_store m) (λ a w. Q a w.db) (λ _ _. Unit {0})
unfolding on_store
on_store-Triple {A} {m} {P} {Q} {R} t = record {
  at = λ c p. go c (m (store_conn c)) (t.at (store_conn c) p);
}
  where
    go :
        (c : Conn World) (z : Result StoreError A × Conn StoreDb)
        → Outcome Q R z.0 z.1.db
        → Outcome {E = BackupError}
            (λ a (w : World). Q a w.db)
            (λ _ _. Unit {0})
            (back c z).0
            (back c z).1.db
    go c (ok a, c') h = h
    go c (err e, c') h = tt

remove_file-Triple :
    (blocked : String → Bool) (path : String) (d0 : StoreDb)
    → Triple (λ w. w.db ≡ d0) (remove_file blocked path) (λ _ w. w.db ≡ d0) (λ _ _. Unit {0})
unfolding remove_file
remove_file-Triple blocked path d0 = record { at = λ c p. go c (blocked path) p }
  where
    go :
        (c : Conn World) (b : Bool)
        → c.db.db ≡ d0
        → let z : Result BackupError (Unit {0}) × Conn World =
            if b then (err (BackupError.file_failed path), c) else (
              ok tt,
              record c { db = record c.db { files = keep (λ f. not (f == path)) c.db.files } },
            ) in
          Outcome (λ _ (w : World). w.db ≡ d0) (λ _ _. Unit {0}) z.0 z.1.db
    go c true p = tt
    go c false p = p

delete-Triple :
    (id : String) (d0 : StoreDb)
    → Triple
        (λ d. d ≡ d0)
        (delete_backup_archive id)
        (λ _ d. d ≡ (delete_archive id d0).1)
        (λ _ _. Unit {0})
unfolding delete_backup_archive delete_archive
delete-Triple id d0 = Triple-stmt _ _ (λ d h. rw h refl) (λ d h. tt)

remove_archive-Triple :
    (blocked : String → Bool) (a : BackupArchive) (d0 : StoreDb)
    → Triple
        (λ w. w.db ≡ d0)
        (remove_archive blocked a)
        (λ _ w. w.db ≡ (delete_archive a.id d0).1)
        (λ _ _. Unit {0})
remove_archive-Triple blocked a d0 =
    Triple-bind {Q = λ _ w. w.db ≡ d0} (remove_file-Triple blocked a.path d0)
      λ _. on_store-Triple (delete-Triple a.id d0)

loop-Triple :
    (blocked : String → Bool) (count : ℤ) (cut : Time) (i : ℕ) (arcs : List BackupArchive)
    (d0 : StoreDb)
    → Triple
        (λ w. w.db ≡ d0)
        (retention_loop blocked count cut i arcs)
        (λ _ w. w.db ≡ delete_all (doomed count cut i arcs) d0)
        (λ _ _. Unit {0})
unfolding retention_loop doomed
loop-Triple blocked count cut i [] d0 = Triple-pure tt (λ d h. h)
loop-Triple blocked count cut i (a ∷ arcs) d0 = elim (Bool-cases (is_doomed count cut i a)) [
  | inl e ↦ rw e (
      Triple-bind {Q = λ _ w. w.db ≡ (delete_archive a.id d0).1}
        (remove_archive-Triple blocked a d0)
        λ _. loop-Triple blocked count cut (i + 1) arcs (delete_archive a.id d0).1)
  | inr e ↦ rw e (
      Triple-bind {Q = λ _ w. w.db ≡ d0} (Triple-pure tt (λ d h. h))
        λ _. loop-Triple blocked count cut (i + 1) arcs d0)
]

-- An archive of the id is stored.
abbrev pub stored : String → StoreDb → Bool
stored id db = exists (λ (r : ArchiveRow). r.id == id) db.archives

stored_deleted :
    (id x : String) (rows : List ArchiveRow)
    → exists (λ (r : ArchiveRow). r.id == x) (keep (λ (r : ArchiveRow). not (r.id == id)) rows)
      ≡ (exists (λ (r : ArchiveRow). r.id == x) rows && not (id == x))
unfolding exists keep
stored_deleted id x [] = refl
stored_deleted id x (r ∷ rows) =
    ground (arith, eq_iff r.id x, eq_iff r.id id, eq_iff id x, stored_deleted id x rows)

stored-delete_all :
    (x : String) (arcs : List BackupArchive) (db : StoreDb)
    → stored x (delete_all arcs db)
      ≡ (stored x db && not (exists (λ (a : BackupArchive). a.id == x) arcs))
unfolding exists delete_archive
stored-delete_all x [] db = ground arith
stored-delete_all x (a ∷ arcs) db =
    stored-delete_all x arcs (delete_archive a.id db).1
    ∙ rw (stored_deleted a.id x db.archives) (ground arith)

list-Triple :
    (newest_first : List ArchiveRow → List ArchiveRow) (app_id : String) (d0 : StoreDb)
    → Triple
        (λ d. d ≡ d0)
        (list_backup_archives newest_first app_id)
        (λ arcs d.
          (arcs
            ≡ map scan_archive
                (newest_first (keep (λ (r : ArchiveRow). r.app_id == app_id) d0.archives)))
          × (d ≡ d0))
        (λ _ _. Unit {0})
unfolding list_backup_archives
list-Triple newest_first app_id d0 = Triple-stmt _ _ (λ d h. (rw h refl, h)) (λ d h. tt)

-- The loop over what the listing gave.
loop_listed :
    (blocked : String → Bool) (count : ℤ) (cut : Time) (listed arcs : List BackupArchive)
    (d0 : StoreDb)
    → arcs ≡ listed
    → Triple
        (λ w. w.db ≡ d0)
        (retention_loop blocked count cut 0 arcs)
        (λ _ w. w.db ≡ delete_all (doomed count cut 0 listed) d0)
        (λ _ _. Unit {0})
loop_listed blocked count cut listed arcs d0 e = rw e (loop-Triple blocked count cut 0 listed d0)

enforce-Triple :
    (newest_first : List ArchiveRow → List ArchiveRow) (blocked : String → Bool)
    (days_before : Time → ℤ → Time) (now : Time) (app_id : String) (count days : ℤ) (d0 : StoreDb)
    → Triple
        (λ w. w.db ≡ d0)
        (enforce_retention newest_first blocked days_before now app_id count days)
        (λ _ w.
          w.db
          ≡ delete_all
              (doomed count (cut_of days_before now days) 0 (
                map scan_archive
                  (newest_first (keep (λ (r : ArchiveRow). r.app_id == app_id) d0.archives))))
              d0)
        (λ _ _. Unit {0})
unfolding enforce_retention
enforce-Triple newest_first blocked days_before now app_id count days d0 =
    Triple-bind
      {Q = λ arcs w.
        (arcs
          ≡ map scan_archive
              (newest_first (keep (λ (r : ArchiveRow). r.app_id == app_id) d0.archives)))
        × (w.db ≡ d0)}
      (on_store-Triple (list-Triple newest_first app_id d0))
      λ arcs. record {
        at =
            λ c p. (loop_listed blocked count (cut_of days_before now days) _ arcs d0 p.0).at c p.1;
      }

-- the archives, newest first and from the index `i`, behind the first `count` where there is a count, or older than `cut`
-- where there are days
unfoldable pub surplus : ℤ → ℤ → Time → ℕ → List BackupArchive → List BackupArchive
surplus count days cut i [] = []
surplus count days cut i (a ∷ arcs) =
    let rest = surplus count days cut (i + 1) arcs in
    if (int_ltb (pos 0) count && int_leb count (pos i))
      || (int_ltb (pos 0) days && ltb a.created_at cut)
    then a ∷ rest
    else rest

doomed-surplus_one :
    (days_before : Time → ℤ → Time) (now : Time) (count days : ℤ) (i : ℕ) (a : BackupArchive)
    → is_doomed count (cut_of days_before now days) i a ≡ (
        (int_ltb (pos 0) count && int_leb count (pos i))
        || (int_ltb (pos 0) days && ltb a.created_at (days_before now days)))
doomed-surplus_one days_before now count days i a = elim (Bool-cases (int_ltb (pos 0) days)) [
  | inl e ↦ rw e (ground arith)
  | inr e ↦ rw e (ground arith)
]

doomed-surplus :
    (days_before : Time → ℤ → Time) (now : Time) (count days : ℤ) (i : ℕ)
    (arcs : List BackupArchive)
    → doomed count (cut_of days_before now days) i arcs
      ≡ surplus count days (days_before now days) i arcs
unfolding doomed surplus
doomed-surplus days_before now count days i [] = refl
doomed-surplus days_before now count days i (a ∷ arcs) =
    rw
      (
        doomed-surplus_one days_before now count days i a,
        doomed-surplus days_before now count days (i + 1) arcs,
      )
      refl

-- After a retention that returned, an archive of any id is stored exactly if it was before and is not among those, of the archives of the
-- application in their order, that stand behind the first `count`, where it is positive, or are older than `days`, where
-- they are positive.
pub enforce-stored :
    (newest_first : List ArchiveRow → List ArchiveRow) (blocked : String → Bool)
    (days_before : Time → ℤ → Time) (now : Time) (app_id : String) (count days : ℤ) (c : Conn World)
    (id : String)
    → (enforce_retention newest_first blocked days_before now app_id count days c).0 ≡ ok tt
    → stored id (enforce_retention newest_first blocked days_before now app_id count days c).1.db.db
      ≡ (stored id c.db.db
          && not (
              exists
                (λ (a : BackupArchive). a.id == id)
                (surplus count days (days_before now days) 0 (
                  map scan_archive (
                    newest_first
                      (keep (λ (r : ArchiveRow). r.app_id == app_id) c.db.db.archives))))))
enforce-stored newest_first blocked days_before now app_id count days c id e =
    ap (stored id) (
      Triple-ok (enforce-Triple newest_first blocked days_before now app_id count days c.db.db) c
        refl e)
    ∙ stored-delete_all id _ c.db.db
    ∙ ap
        (λ (arcs : List BackupArchive).
          stored id c.db.db && not (exists (λ (a : BackupArchive). a.id == id) arcs))
        (doomed-surplus days_before now count days 0 _)
