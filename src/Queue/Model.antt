-- ===== src/Queue/Model.antt =====
-- The table run_queue (internal/queue/sqlite_coordinator.go, `initSchema`).
use tgup.Prelude.{ℕ, Bool, true, false, if◌then◌else◌}
use tgup.Prelude.Text.{Text, codes, text_eq}

-- The texts that the column `status` holds; `custom` is any other.
pub data RunStatus : Type 0 where
  waiting running stale finished failed canceled : RunStatus
  custom : Text → RunStatus

pub record QueueRow : Type 0 where
  pub run_id : Text
  pub status : RunStatus
  pub created_at : ℕ
  pub heartbeat_at : ℕ
  pub finished_at : ℕ

unfoldable pub status_of : Text → RunStatus
status_of s =
    if text_eq s (codes "waiting")
    then waiting
    else if text_eq s (codes "running")
    then running
    else if text_eq s (codes "stale")
    then stale
    else if text_eq s (codes "finished")
    then finished
    else if text_eq s (codes "failed")
    then failed
    else if text_eq s (codes "canceled")
    then canceled
    else custom s

-- `status IN ('waiting', 'running')`.
abbrev pub is_live : RunStatus → Bool
is_live waiting = true
is_live running = true
is_live _ = false
