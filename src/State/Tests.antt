-- ===== src/State/Tests.antt =====
-- Tests of the state store.
use tgup.Prelude.{◌+◌, length}
use tgup.Prelude.{ℕ, ◌≡◌, refl, true, false, List, [], ◌∷◌, some, arith, keep, count_if}
use tgup.Prelude.Text.{codes, text_eq}
use tgup.Prelude.Int.{pos}
use tgup.Errors.{plain, ok, wrap, state}
use tgup.Queue.Model.{QueueRow, running, finished, is_live}
use tgup.State.Model.{
  ResumeKey, sent, MarkSentInput, MarkFailedInput, MaintenanceConfig, CleanupReport, same_key,
}
use tgup.State.Store.{
  Table, works, fails, mark_sent, mark_failed, is_done, is_sent, select, upsert, sent_row,
  list_pending, get_upload_row,
}
use tgup.State.Marks.{is_done-mark, get_upload_row-mark_sent}
use tgup.State.Maintenance.{Tables, Answers, cutoff_unix, is_positive, apply_maintenance}
use tgup.State.Maintenance.Effects.{
  AllWork, apply_maintenance_error_unchanged, preview_counts_deletions,
  apply_maintenance_keeps_live, keep_failed_deletes_failed, old_failed,
}

abbrev key : ℕ → ResumeKey
key n = record { path = codes "/m/a"; size = n; mtime_ns = pos 4 }

abbrev sent_input : ℕ → MarkSentInput
sent_input n = record {
  key = key n;
  target = codes "me";
  message_ids = 7 ∷ [];
  album_group_id = codes "g";
}

abbrev failed_input : ℕ → MarkFailedInput
failed_input n = record { key = key n; target = codes "me"; error_reason = codes "x" }

abbrev table : Table
table = (mark_failed works 20 (failed_input 2) (mark_sent works 10 (sent_input 1) []).0).0

table_pending :
    list_pending (λ k. works) (key 1 ∷ key 2 ∷ key 3 ∷ []) table ≡ ok (key 2 ∷ key 3 ∷ [])
unfolding list_pending is_done mark_sent mark_failed same_key text_eq select upsert
table_pending = refl

is_done-mark_example :
    (is_done works (key 2) (mark_sent works 30 (sent_input 2) table).0 ≡ ok true)
    × (is_done works (key 2) (mark_failed works 30 (failed_input 2) table).0 ≡ ok false)
unfolding same_key text_eq
is_done-mark_example = is_done-mark 30 (sent_input 2) (failed_input 2) table (key 2)

get_upload_row-mark_sent_example :
    get_upload_row works (key 2) (mark_sent works 30 (sent_input 2) []).0
    ≡ ok (
        some (record {
          key = key 2;
          status = sent;
          target = codes "me";
          error_reason = codes "";
          message_ids = 7 ∷ [];
          album_group_id = codes "g";
          created_at = 30;
          updated_at = 30;
        }))
unfolding sent_row select
get_upload_row-mark_sent_example = get_upload_row-mark_sent 30 (sent_input 2) []

abbrev working : Answers
working = record {
  count_uploads = works;
  count_queue = works;
  begin = works;
  delete_uploads = works;
  delete_queue = works;
  commit = works;
  vacuum = true;
}

working-AllWork : AllWork working
working-AllWork = record {
  counted_uploads = refl;
  counted_queue = refl;
  begun = refl;
  deleted_uploads = refl;
  deleted_queue = refl;
  committed = refl;
}

abbrev no_commit : Answers
no_commit = record working { commit = fails (plain (codes "disk full")) }

abbrev settings : MaintenanceConfig
settings = record { enabled = true; max_age = pos 60; keep_failed = true; preview_limit = 0 }

abbrev queue_rows : List QueueRow
queue_rows =
    record {
      run_id = codes "1";
      status = finished;
      created_at = 1;
      heartbeat_at = 1;
      finished_at = 2;
    }
    ∷ record {
      run_id = codes "2";
      status = running;
      created_at = 3;
      heartbeat_at = 3;
      finished_at = 0;
    }
    ∷ []

abbrev tables : Tables
tables = record { uploads = table; queue = queue_rows }

apply_maintenance_error_unchanged_example :
    (apply_maintenance no_commit settings true 100 tables).0 ≡ tables
unfolding apply_maintenance
apply_maintenance_error_unchanged_example =
    apply_maintenance_error_unchanged no_commit settings true 100 tables
      (wrap state (codes "commit maintenance tx") (some (plain (codes "disk full")))) refl

preview_counts_deletions_example :
    (r : CleanupReport) × (t' : Tables) × (r' : CleanupReport) × (apply_maintenance working settings
        false 100 tables
      ≡ (tables, ok r))
    × (apply_maintenance working settings true 100 tables ≡ (t', ok r'))
    × (length t'.uploads + r.deleted_uploads ≡ 2)
    × (length t'.queue + r.deleted_queue_rows ≡ 2)
    × (r'.deleted_uploads ≡ r.deleted_uploads)
    × (r'.deleted_queue_rows ≡ r.deleted_queue_rows)
unfolding is_positive mark_sent mark_failed upsert same_key text_eq
preview_counts_deletions_example =
    preview_counts_deletions working working settings 100 tables working-AllWork working-AllWork
      refl refl

apply_maintenance_keeps_live_example :
    keep
      (λ (r : QueueRow). is_live r.status)
      (apply_maintenance working settings true 100 tables).0.queue
    ≡ keep (λ (r : QueueRow). is_live r.status) queue_rows
apply_maintenance_keeps_live_example = apply_maintenance_keeps_live working settings true 100 tables

keep_failed_deletes_failed_example :
    let after = (apply_maintenance working settings true 100 tables).0.uploads in
    (keep (λ r. is_sent r.status) after ≡ keep (λ r. is_sent r.status) table)
    × (count_if (old_failed (cutoff_unix 100 (pos 60))) after ≡ 0)
unfolding is_positive cutoff_unix
keep_failed_deletes_failed_example =
    keep_failed_deletes_failed working settings 100 tables working-AllWork refl refl refl
      (omega arith)
