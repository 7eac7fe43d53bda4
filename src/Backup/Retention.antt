-- ===== src/Backup/Retention.antt =====
-- internal/backup/service.go: EnforceRetention. The files of the archives are a list of paths; which of
-- them os.Remove cannot remove, but for those that do not exist, is an argument, and so are the clock and
-- t.AddDate(0, 0, -days).
use opendash.Prelude.{
  ℕ, ◌+◌, String, Bool, ◌||◌, ◌&&◌, not, List, [], ◌∷◌, Result, ok, err, map_err, ◌==◌,
  if◌then◌else◌, keep,
}
use opendash.Prelude.Int.{ℤ, pos, int_ltb, int_leb}
use opendash.Models.Time.{Time, before, is_zero}
use opendash.Models.Backup.{BackupArchive}
use opendash.Sql.{Conn, Sql, pure, ◌>>=◌, ◌>>◌}
use opendash.Store.Rows.{StoreDb, StoreError, ArchiveRow, Store}
use opendash.Store.Backups.{list_backup_archives, delete_backup_archive}

pub record World : Type 0 where
  pub db : StoreDb
  pub files : List String

pub data BackupError : Type 0 where
  store_failed : StoreError → BackupError
  file_failed : String → BackupError

abbrev pub Backup : Type 0 → Type 0
Backup = Sql BackupError World

abbrev pub store_conn : Conn World → Conn StoreDb
store_conn c = record { db = c.db.db; faults = c.faults }

module _ {A : Type 0} where
  abbrev pub back :
      Conn World → Result StoreError A × Conn StoreDb → Result BackupError A × Conn World
  back c (r, c') =
      (map_err store_failed r, record { db = record c.db { db = c'.db }; faults = c'.faults })

  -- a call of the store
  unfoldable pub on_store : Store A → Backup A
  on_store m c = back c (m (store_conn c))

-- os.Remove; a file that does not exist is no error of the caller
unfoldable pub remove_file : (String → Bool) → String → Backup (Unit {0})
remove_file blocked path c =
    if blocked path
    then (err (file_failed path), c)
    else (ok tt, record c { db = record c.db { files = keep (λ f. not (f == path)) c.db.files } })

-- the time before which archives are too old; zero where there is no such limit
abbrev pub cut_of : (Time → ℤ → Time) → Time → ℤ → Time
cut_of days_before now days = if int_ltb (pos 0) days then days_before now days else 0

abbrev pub is_doomed : ℤ → Time → ℕ → BackupArchive → Bool
is_doomed count cut i a =
    (int_ltb (pos 0) count && int_leb count (pos i))
    || (not (is_zero cut) && before a.created_at cut)

abbrev pub remove_archive : (String → Bool) → BackupArchive → Backup (Unit {0})
remove_archive blocked a = do remove_file blocked a.path; on_store (delete_backup_archive a.id)

-- the loop over the archives from the index `i`
unfoldable pub retention_loop :
    (String → Bool) → ℤ → Time → ℕ → List BackupArchive → Backup (Unit {0})
retention_loop blocked count cut i [] = pure tt
retention_loop blocked count cut i (a ∷ arcs) =
    let rest = retention_loop blocked count cut (i + 1) arcs in
    (if is_doomed count cut i a then remove_archive blocked a else pure tt) >> rest

-- EnforceRetention
unfoldable pub enforce_retention :
    (List ArchiveRow → List ArchiveRow)
    → (String → Bool)
    → (Time → ℤ → Time)
    → Time
    → String
    → ℤ
    → ℤ
    → Backup (Unit {0})
unfolding retention_loop
enforce_retention newest_first blocked days_before now app_id count days = do
  arcs ← on_store (list_backup_archives newest_first app_id)
  retention_loop blocked count (cut_of days_before now days) 0 arcs
