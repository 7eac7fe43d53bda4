-- ===== src/Store/Backups.antt =====
-- internal/store/backups.go: backup jobs, archives and schedules.
use opendash.Prelude.{
  ℕ, String, Bool, ◌||◌, ◌&&◌, not, Option, none, some, List, ◌∷◌, Result, ok, err, map, ◌==◌,
  if◌then◌else◌, keep, exists, find_first, update_if,
}
use opendash.Models.Time.{Time, unix, from_unix, is_zero}
use opendash.Models.Backup.{BackupJob, BackupArchive, BackupSchedule}
use opendash.Sql.{stmt, query}
use opendash.Store.Rows.{
  JobRow, ArchiveRow, ScheduleRow, StoreDb, StoreError, no_rows, schedule_not_found,
  database_failed, constraint_failed, Store,
}
use opendash.Store.Apps.{null_text}
use opendash.Store.Operations.{app_known}

abbrev pub job_row : BackupJob → JobRow
job_row v = record {
  id = v.id;
  app_id = v.app_id;
  status = v.status;
  error = null_text v.error;
  created_at = unix v.created_at;
  updated_at = unix v.updated_at;
}

unfoldable pub insert_job : JobRow → StoreDb → Result StoreError (Unit {0}) × StoreDb
insert_job row db =
    if exists (λ (r : JobRow). r.id == row.id) db.jobs || not (app_known db row.app_id)
    then (err constraint_failed, db)
    else (ok tt, record db { jobs = row ∷ db.jobs })

-- CreateBackupJob
unfoldable pub create_backup_job : BackupJob → Store (Unit {0})
create_backup_job v = stmt database_failed (insert_job (job_row v))

unfoldable pub update_jobs :
    String → (JobRow → JobRow) → StoreDb → Result StoreError (Unit {0}) × StoreDb
update_jobs id f db = (ok tt, record db { jobs = update_if (λ (r : JobRow). r.id == id) f db.jobs })

-- UpdateBackupJob
unfoldable pub update_backup_job : BackupJob → Store (Unit {0})
update_backup_job v = stmt database_failed (
    update_jobs v.id (λ r. record r {
      status = v.status;
      error = null_text v.error;
      updated_at = unix v.updated_at;
    }))

abbrev pub archive_row : BackupArchive → ArchiveRow
archive_row v = record {
  id = v.id;
  job_id = v.job_id;
  app_id = v.app_id;
  path = v.path;
  size = v.size;
  sha256 = v.sha256;
  manifest_sha256 = v.manifest_sha256;
  created_at = unix v.created_at;
  verified_at = none;
  integrity_ok = none;
}

unfoldable pub insert_archive : ArchiveRow → StoreDb → Result StoreError (Unit {0}) × StoreDb
insert_archive row db =
    if exists (λ (r : ArchiveRow). r.id == row.id || r.path == row.path) db.archives
      || not (app_known db row.app_id && exists (λ (j : JobRow). j.id == row.job_id) db.jobs)
    then (err constraint_failed, db)
    else (ok tt, record db { archives = row ∷ db.archives })

-- CreateBackupArchive
unfoldable pub create_backup_archive : BackupArchive → Store (Unit {0})
create_backup_archive v = stmt database_failed (insert_archive (archive_row v))

-- the zero time where the column is NULL
abbrev pub time_or_zero : Option ℕ → Time
time_or_zero none = 0
time_or_zero (some t) = from_unix t

-- scanArchive of a row
abbrev pub scan_archive : ArchiveRow → BackupArchive
scan_archive r = record {
  id = r.id;
  job_id = r.job_id;
  app_id = r.app_id;
  path = r.path;
  size = r.size;
  sha256 = r.sha256;
  manifest_sha256 = r.manifest_sha256;
  created_at = from_unix r.created_at;
  verified_at = time_or_zero r.verified_at;
  integrity_ok = r.integrity_ok;
}

abbrev pub found_archive : Option ArchiveRow → Result StoreError BackupArchive
found_archive none = err no_rows
found_archive (some r) = ok (scan_archive r)

-- GetBackupArchive
unfoldable pub get_backup_archive : String → Store BackupArchive
get_backup_archive id =
    query database_failed
      (λ db. found_archive (find_first (λ (r : ArchiveRow). r.id == id) db.archives))

-- ListBackupArchives; `newest_first` is the engine's ORDER BY created_at DESC
unfoldable pub list_backup_archives :
    (List ArchiveRow → List ArchiveRow) → String → Store (List BackupArchive)
list_backup_archives newest_first app_id = query database_failed (λ db.
    ok
      (map scan_archive (newest_first (keep (λ (r : ArchiveRow). r.app_id == app_id) db.archives))))

unfoldable pub delete_archive : String → StoreDb → Result StoreError (Unit {0}) × StoreDb
delete_archive id db =
    (ok tt, record db { archives = keep (λ (r : ArchiveRow). not (r.id == id)) db.archives })

-- DeleteBackupArchive
unfoldable pub delete_backup_archive : String → Store (Unit {0})
delete_backup_archive id = stmt database_failed (delete_archive id)

unfoldable pub update_archives :
    String → (ArchiveRow → ArchiveRow) → StoreDb → Result StoreError (Unit {0}) × StoreDb
update_archives id f db =
    (ok tt, record db { archives = update_if (λ (r : ArchiveRow). r.id == id) f db.archives })

-- MarkBackupVerified
unfoldable pub mark_backup_verified : String → Time → Bool → Store (Unit {0})
mark_backup_verified id at_time good = stmt database_failed (
    update_archives id
      (λ r. record r { verified_at = some (unix at_time); integrity_ok = some good }))

abbrev pub null_time : Time → Option ℕ
null_time t = if is_zero t then none else some (unix t)

abbrev pub schedule_row : BackupSchedule → ScheduleRow
schedule_row v = record {
  id = v.id;
  app_id = v.app_id;
  enabled = v.enabled;
  interval_hours = v.interval_hours;
  retention_count = v.retention_count;
  retention_days = v.retention_days;
  next_run_at = null_time v.next_run_at;
  created_at = unix v.created_at;
  updated_at = unix v.updated_at;
}

-- ON CONFLICT(app_id) DO UPDATE: the id and the creation of the old row stay
abbrev pub excluded : ScheduleRow → ScheduleRow → ScheduleRow
excluded row r = record r {
  enabled = row.enabled;
  interval_hours = row.interval_hours;
  retention_count = row.retention_count;
  retention_days = row.retention_days;
  next_run_at = row.next_run_at;
  updated_at = row.updated_at;
}

-- The conflict on `app_id` updates; a clash with the key of another row is an error in any case.
unfoldable pub upsert_schedule : ScheduleRow → StoreDb → Result StoreError (Unit {0}) × StoreDb
upsert_schedule row db =
    if exists (λ (r : ScheduleRow). r.id == row.id && not (r.app_id == row.app_id)) db.schedules
    then (err constraint_failed, db)
    else if exists (λ (r : ScheduleRow). r.app_id == row.app_id) db.schedules
    then (
      ok tt,
      record db {
        schedules =
            update_if (λ (r : ScheduleRow). r.app_id == row.app_id) (excluded row) db.schedules;
      },
    )
    else if not (app_known db row.app_id)
    then (err constraint_failed, db)
    else (ok tt, record db { schedules = row ∷ db.schedules })

-- UpsertBackupSchedule
unfoldable pub upsert_backup_schedule : BackupSchedule → Store (Unit {0})
upsert_backup_schedule v = stmt database_failed (upsert_schedule (schedule_row v))

abbrev pub found_schedule : String → Option ScheduleRow → Result StoreError BackupSchedule
found_schedule app_id none = err (schedule_not_found app_id)
found_schedule app_id (some r) = ok (record {
  id = r.id;
  app_id = r.app_id;
  enabled = r.enabled;
  interval_hours = r.interval_hours;
  retention_count = r.retention_count;
  retention_days = r.retention_days;
  next_run_at = time_or_zero r.next_run_at;
  created_at = from_unix r.created_at;
  updated_at = from_unix r.updated_at;
})

-- GetBackupSchedule
unfoldable pub get_backup_schedule : String → Store BackupSchedule
get_backup_schedule app_id = query database_failed (λ db.
    found_schedule app_id (find_first (λ (r : ScheduleRow). r.app_id == app_id) db.schedules))
