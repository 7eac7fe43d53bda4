-- ===== src/Backup/Tests.antt =====
-- The retention of concrete archives.
use opendash.Prelude.{
  ◌≡◌, refl, String, Bool, false, ◌&&◌, not, none, [], ◌∷◌, map, Result, ok, err, keep, exists,
  ◌==◌, ◌*◌, ◌-◌,
}
use opendash.Prelude.Int.{ℤ, pos}
use opendash.Models.Time.{Time, from_unix, second}
use opendash.Models.Backup.{BackupArchive}
use opendash.Sql.{Conn, ◌>>=◌, stmt}
use opendash.Store.Rows.{ArchiveRow, empty_store}
use opendash.Store.Backups.{
  scan_archive, list_backup_archives, delete_backup_archive, delete_archive,
}
use opendash.Backup.Retention.{
  World, BackupError, file_failed, on_store, remove_file, enforce_retention,
}
use opendash.Backup.Kept.{surplus, stored, enforce-stored}

abbrev archive : String → String → ArchiveRow
archive id app = record {
  id = id;
  job_id = "job";
  app_id = app;
  path = id;
  size = pos 1;
  sha256 = "";
  manifest_sha256 = "";
  created_at = 1700000000;
  verified_at = none;
  integrity_ok = none;
}

abbrev world : World
world = record {
  db = record empty_store {
    archives = archive "new" "app" ∷ archive "old" "app" ∷ archive "other" "web" ∷ [];
  };
  files = "new" ∷ "old" ∷ "other" ∷ [];
}

abbrev days_before : Time → ℤ → Time
days_before t (pos n) = t - n * (86400 * second)
days_before t _ = t

abbrev enforce : (String → Bool) → Result BackupError (Unit {0}) × Conn World
enforce blocked =
    enforce_retention (λ rows. rows) blocked days_before (from_unix 1700000000) "app" (pos 1)
      (pos 0) (record { db = world; faults = [] })

enforce_runs : (enforce (λ _. false)).0 ≡ ok tt
unfolding enforce_retention on_store list_backup_archives delete_backup_archive delete_archive
    remove_file ◌>>=◌ stmt keep
enforce_runs = refl

files_run : (enforce (λ _. false)).1.db.files ≡ "new" ∷ "other" ∷ []
unfolding enforce_retention on_store list_backup_archives delete_backup_archive delete_archive
    remove_file ◌>>=◌ stmt keep
files_run = refl

-- A file that cannot be removed keeps its archive.
blocked_runs : (enforce (λ p. p == "old")).0 ≡ err (file_failed "old")
unfolding enforce_retention on_store list_backup_archives delete_backup_archive delete_archive
    remove_file ◌>>=◌ stmt keep
blocked_runs = refl

enforce-stored_example : stored "old" (enforce (λ _. false)).1.db.db ≡ (
    stored "old" world.db
    && not (
        exists
          (λ (a : BackupArchive). a.id == "old")
          (surplus
            (pos 1)
            (pos 0)
            (days_before (from_unix 1700000000) (pos 0))
            0
            (map scan_archive (keep (λ (r : ArchiveRow). r.app_id == "app") world.db.archives)))))
enforce-stored_example =
    enforce-stored (λ rows. rows) (λ _. false) days_before (from_unix 1700000000) "app" (pos 1)
      (pos 0) (record { db = world; faults = [] }) "old" enforce_runs
