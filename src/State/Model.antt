-- ===== src/State/Model.antt =====
-- The data of the state store (internal/state/model.go). The table `uploads` is the list of its
-- rows; the column `message_ids` holds the JSON text of a list of numbers, which is that list.
use tgup.Prelude.{ℕ, List, Bool, ◌&&◌, ◌==◌}
use tgup.Prelude.Text.{Text, text_eq}
use tgup.Prelude.Int.{ℤ, eq_ℤ}

pub record ResumeKey : Type 0 where
  pub path : Text
  pub size : ℕ
  pub mtime_ns : ℤ

-- What the column `status` holds.
pub data UploadStatus : Type 0 where
  sent failed : UploadStatus

pub record UploadRow : Type 0 where
  pub key : ResumeKey
  pub status : UploadStatus
  pub target : Text
  pub error_reason : Text
  pub message_ids : List ℕ
  pub album_group_id : Text
  pub created_at : ℕ
  pub updated_at : ℕ

pub record MarkSentInput : Type 0 where
  pub key : ResumeKey
  pub target : Text
  pub message_ids : List ℕ
  pub album_group_id : Text

pub record MarkFailedInput : Type 0 where
  pub key : ResumeKey
  pub target : Text
  pub error_reason : Text

-- `MaxAge` in seconds.
pub record MaintenanceConfig : Type 0 where
  pub enabled : Bool
  pub max_age : ℤ
  pub keep_failed : Bool
  pub preview_limit : ℕ

pub record CleanupReport : Type 0 where
  pub preview : Bool
  pub deleted_uploads : ℕ
  pub deleted_queue_rows : ℕ
  pub vacuumed : Bool

-- `path=? AND size=? AND mtime_ns=?`.
unfoldable pub same_key : ResumeKey → ResumeKey → Bool
same_key a b = text_eq a.path b.path && a.size == b.size && eq_ℤ a.mtime_ns b.mtime_ns
