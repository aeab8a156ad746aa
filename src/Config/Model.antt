-- ===== src/Config/Model.antt =====
-- The settings (internal/config/types.go) and the overlays (internal/config/merge.go). A slice that is
-- nil and an empty one are both the empty list.
use tgup.Prelude.{Bool, List, Option}
use tgup.Prelude.Text.{Text}
use tgup.Prelude.Int.{ℤ}

-- A number of hours is a float in the source; here it is in millionths.
abbrev pub Hours : Type 0
Hours = ℤ

pub record TelegramConfig : Type 0 where
  pub api_id : ℤ
  pub api_hash : Text
  pub session_path : Text

pub record PathsConfig : Type 0 where
  pub state_path : Text
  pub artifacts_dir : Text

pub record ScanConfig : Type 0 where
  pub src : List Text
  pub recursive : Bool
  pub follow_symlinks : Bool
  pub include_ext : List Text
  pub exclude_ext : List Text

pub record PlanConfig : Type 0 where
  pub order : Text
  pub reverse : Bool
  pub album_max : ℤ

pub record UploadConfig : Type 0 where
  pub target : Text
  pub caption : Text
  pub parse_mode : Text
  pub concurrency_album : ℤ
  pub threads : ℤ
  pub pool_size : ℤ
  pub resume : Bool
  pub strict_metadata : Bool
  pub image_mode : Text
  pub video_thumbnail : Text
  pub duplicate : Text

pub record MaintenanceConfig : Type 0 where
  pub enabled : Bool
  pub interval_hours : Hours
  pub retention_sent_days : ℤ
  pub retention_failed_days : ℤ
  pub retention_queue_days : ℤ
  pub max_db_mb : ℤ
  pub max_upload_rows : ℤ
  pub first_run_preview : Bool
  pub vacuum_cooldown_hours : Hours
  pub vacuum_min_reclaim_mb : ℤ

pub record McpConfig : Type 0 where
  pub enabled : Bool
  pub host : Text
  pub port : ℤ
  pub token : Text
  pub allow_roots : List Text
  pub control_db : Text
  pub event_retention_hours : Hours
  pub max_concurrent_jobs : ℤ
  pub enable_sse : Bool
  pub allowed_origins : List Text

pub record Config : Type 0 where
  pub telegram : TelegramConfig
  pub paths : PathsConfig
  pub scan : ScanConfig
  pub plan : PlanConfig
  pub upload : UploadConfig
  pub maintenance : MaintenanceConfig
  pub mcp : McpConfig

pub record TelegramOverlay : Type 0 where
  pub api_id : Option ℤ
  pub api_hash : Option Text
  pub session_path : Option Text
  pub session_path_legacy : Option Text

pub record PathsOverlay : Type 0 where
  pub state_path : Option Text
  pub artifacts_dir : Option Text
  pub state_path_legacy : Option Text

pub record ScanOverlay : Type 0 where
  pub src : Option (List Text)
  pub recursive : Option Bool
  pub follow_symlinks : Option Bool
  pub include_ext : Option (List Text)
  pub exclude_ext : Option (List Text)

pub record PlanOverlay : Type 0 where
  pub order : Option Text
  pub reverse : Option Bool
  pub album_max : Option ℤ

pub record UploadOverlay : Type 0 where
  pub target : Option Text
  pub caption : Option Text
  pub parse_mode : Option Text
  pub concurrency_album : Option ℤ
  pub threads : Option ℤ
  pub pool_size : Option ℤ
  pub resume : Option Bool
  pub strict_metadata : Option Bool
  pub image_mode : Option Text
  pub video_thumbnail : Option Text
  pub duplicate : Option Text
  pub state_path_compat : Option Text

pub record MaintenanceOverlay : Type 0 where
  pub enabled : Option Bool
  pub interval_hours : Option Hours
  pub retention_sent_days : Option ℤ
  pub retention_failed_days : Option ℤ
  pub retention_queue_days : Option ℤ
  pub max_db_mb : Option ℤ
  pub max_upload_rows : Option ℤ
  pub first_run_preview : Option Bool
  pub vacuum_cooldown_hours : Option Hours
  pub vacuum_min_reclaim_mb : Option ℤ

pub record McpOverlay : Type 0 where
  pub enabled : Option Bool
  pub host : Option Text
  pub port : Option ℤ
  pub token : Option Text
  pub allow_roots : Option (List Text)
  pub control_db : Option Text
  pub event_retention_hours : Option Hours
  pub max_concurrent_jobs : Option ℤ
  pub enable_sse : Option Bool
  pub allowed_origins : Option (List Text)

-- A field that is `none` is not set.
pub record Overlay : Type 0 where
  pub telegram : TelegramOverlay
  pub paths : PathsOverlay
  pub scan : ScanOverlay
  pub plan : PlanOverlay
  pub upload : UploadOverlay
  pub maintenance : MaintenanceOverlay
  pub mcp : McpOverlay
