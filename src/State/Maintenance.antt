-- ===== src/State/Maintenance.antt =====
-- Clean-up of the state file (`ApplyMaintenance` of internal/state/sqlite_store.go and
-- internal/state/cleanup.go). No other process writes between its statements.
pub mod Effects
use Prim.Native.String.{String}
use tgup.Prelude.{
  ℕ, ◌-◌, Bool, true, false, not, ◌&&◌, ◌||◌, List, Option, none, some, keep, count_if, ltb,
  if◌then◌else◌,
}
use tgup.Prelude.Text.{codes}
use tgup.Prelude.Int.{ℤ, pos, negsuc}
use tgup.Errors.{Error, Result, ok, err, wrap, state}
use tgup.Queue.Model.{RunStatus, QueueRow}
use tgup.State.Model.{UploadStatus, sent, failed, UploadRow, MaintenanceConfig, CleanupReport}
use tgup.State.Store.{Table, Db, works, fails}

-- The two tables of the state file.
pub record Tables : Type 0 where
  pub uploads : Table
  pub queue : List QueueRow

-- How the driver answers each statement of `ApplyMaintenance`.
pub record Answers : Type 0 where
  pub count_uploads : Db
  pub count_queue : Db
  pub begin : Db
  pub delete_uploads : Db
  pub delete_queue : Db
  pub commit : Db
  pub vacuum : Bool

-- The statuses of `buildUploadCleanupWhere`.
unfoldable pub upload_status_matches : Bool → UploadStatus → Bool
upload_status_matches true failed = true
upload_status_matches true sent = false
upload_status_matches false failed = true
upload_status_matches false sent = true

-- `buildUploadCleanupWhere`; a cutoff of 0 is none.
unfoldable pub upload_matches : MaintenanceConfig → ℕ → UploadRow → Bool
unfolding upload_status_matches
upload_matches cfg cutoff row =
    upload_status_matches cfg.keep_failed row.status
    && (if ltb 0 cutoff then ltb row.updated_at cutoff else true)

unfoldable pub queue_status_matches : RunStatus → Bool
queue_status_matches RunStatus.finished = true
queue_status_matches RunStatus.failed = true
queue_status_matches RunStatus.canceled = true
queue_status_matches RunStatus.stale = true
queue_status_matches _ = false

-- `buildQueueCleanupWhere`.
unfoldable pub queue_matches : ℕ → QueueRow → Bool
unfolding queue_status_matches
queue_matches cutoff row =
    queue_status_matches row.status && (if ltb 0 cutoff then ltb row.finished_at cutoff else true)

-- `cutoffUnix`; a time before 1970 counts as none, like 0.
unfoldable pub cutoff_unix : ℕ → ℤ → ℕ
cutoff_unix now (pos age) = if ltb 0 age then now - age else 0
cutoff_unix now (negsuc n) = 0

unfoldable pub is_positive : ℤ → Bool
is_positive (pos n) = ltb 0 n
is_positive (negsuc n) = false

-- What follows a statement: its error, with the tables as they were, or the rest.
abbrev pub answer {ℓ} : {A : Type ℓ} → Db → String → Tables → Tables × Result A → Tables × Result A
answer (fails e) msg t rest = (t, err (wrap state (codes msg) (some e)))
answer works msg t rest = rest

unfoldable pub clean : MaintenanceConfig → ℕ → Tables → Tables
unfolding upload_matches queue_matches
clean cfg cutoff t = record {
  uploads = keep (λ r. not (upload_matches cfg cutoff r)) t.uploads;
  queue = keep (λ r. not (queue_matches cutoff r)) t.queue;
}

-- The numbers of rows that the conditions select. With no other writer a deletion returns the
-- number that was counted.
unfoldable pub counts : MaintenanceConfig → ℕ → Tables → Bool → Bool → CleanupReport
unfolding upload_matches queue_matches
counts cfg cutoff t preview vacuumed = record {
  preview = preview;
  deleted_uploads = count_if (upload_matches cfg cutoff) t.uploads;
  deleted_queue_rows = count_if (queue_matches cutoff) t.queue;
  vacuumed = vacuumed;
}

-- The transaction: its deletions are kept only if it is committed.
unfoldable pub force_clean :
    Answers → MaintenanceConfig → ℕ → Tables → Tables × Result CleanupReport
unfolding clean counts
force_clean a cfg cutoff t = answer a.begin "begin maintenance tx" t (
    answer a.delete_uploads "delete uploads" t (
      answer a.delete_queue "delete run_queue" t (
        answer a.commit "commit maintenance tx" t
          (clean cfg cutoff t, ok (counts cfg cutoff t false a.vacuum)))))

unfoldable pub apply_maintenance :
    Answers → MaintenanceConfig → Bool → ℕ → Tables → Tables × Result CleanupReport
unfolding force_clean cutoff_unix is_positive counts
apply_maintenance a cfg force now t =
    let cutoff = cutoff_unix now cfg.max_age in
    if not cfg.enabled
    then (
      t,
      ok (record {
        preview = not force;
        deleted_uploads = 0;
        deleted_queue_rows = 0;
        vacuumed = false;
      }),
    )
    else if force && not (is_positive cfg.max_age)
    then (t, err (wrap state (codes "maintenance: max_age must be positive for force mode") none))
    else answer a.count_uploads "maintenance preview uploads" t (
        answer a.count_queue "maintenance preview queue" t (
          if not force
          then (t, ok (counts cfg cutoff t true false))
          else force_clean a cfg cutoff t))
