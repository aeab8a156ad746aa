-- ===== src/Config/Merge.antt =====
-- Overlaying settings (internal/config/merge.go and loader.go) and the defaults (internal/config/defaults.go).
use tgup.Prelude.{true, false, List, [], ◌∷◌, ◌++◌, Option, none, some}
use tgup.Prelude.Text.{Text, codes}
use tgup.Prelude.Int.{pos}
use tgup.Config.Model.{
  Config, Overlay, TelegramConfig, PathsConfig, ScanConfig, PlanConfig, UploadConfig,
  MaintenanceConfig, McpConfig, TelegramOverlay, PathsOverlay, ScanOverlay, PlanOverlay,
  UploadOverlay, MaintenanceOverlay, McpOverlay,
}
use tgup.Config.Validate.{ValidationError, normalize_extensions, validate, validate_telegram}

-- A value that an overlay may set.
unfoldable pub set_or {ℓ} : {A : Type ℓ} → Option A → A → A
set_or none a = a
set_or (some b) a = b

-- A value under its name, or else under a legacy name.
unfoldable pub or_legacy {ℓ} : {A : Type ℓ} → Option A → Option A → Option A
or_legacy none legacy = legacy
or_legacy (some a) legacy = some a

unfoldable pub normalized : Option (List Text) → Option (List Text)
normalized none = none
normalized (some exts) = some (normalize_extensions exts)

unfoldable pub apply_telegram : TelegramConfig → TelegramOverlay → TelegramConfig
unfolding set_or or_legacy
apply_telegram dst ov = record {
  api_id = set_or ov.api_id dst.api_id;
  api_hash = set_or ov.api_hash dst.api_hash;
  session_path = set_or (or_legacy ov.session_path ov.session_path_legacy) dst.session_path;
}

unfoldable pub apply_paths : PathsConfig → PathsOverlay → PathsConfig
unfolding set_or or_legacy
apply_paths dst ov = record {
  state_path = set_or (or_legacy ov.state_path ov.state_path_legacy) dst.state_path;
  artifacts_dir = set_or ov.artifacts_dir dst.artifacts_dir;
}

unfoldable pub apply_scan : ScanConfig → ScanOverlay → ScanConfig
unfolding set_or normalized
apply_scan dst ov = record {
  src = set_or ov.src dst.src;
  recursive = set_or ov.recursive dst.recursive;
  follow_symlinks = set_or ov.follow_symlinks dst.follow_symlinks;
  include_ext = set_or (normalized ov.include_ext) dst.include_ext;
  exclude_ext = set_or (normalized ov.exclude_ext) dst.exclude_ext;
}

unfoldable pub apply_plan : PlanConfig → PlanOverlay → PlanConfig
unfolding set_or
apply_plan dst ov = record {
  order = set_or ov.order dst.order;
  reverse = set_or ov.reverse dst.reverse;
  album_max = set_or ov.album_max dst.album_max;
}

unfoldable pub apply_upload : UploadConfig → UploadOverlay → UploadConfig
unfolding set_or
apply_upload dst ov = record {
  target = set_or ov.target dst.target;
  caption = set_or ov.caption dst.caption;
  parse_mode = set_or ov.parse_mode dst.parse_mode;
  concurrency_album = set_or ov.concurrency_album dst.concurrency_album;
  threads = set_or ov.threads dst.threads;
  pool_size = set_or ov.pool_size dst.pool_size;
  resume = set_or ov.resume dst.resume;
  strict_metadata = set_or ov.strict_metadata dst.strict_metadata;
  image_mode = set_or ov.image_mode dst.image_mode;
  video_thumbnail = set_or ov.video_thumbnail dst.video_thumbnail;
  duplicate = set_or ov.duplicate dst.duplicate;
}

unfoldable pub apply_maintenance : MaintenanceConfig → MaintenanceOverlay → MaintenanceConfig
unfolding set_or
apply_maintenance dst ov = record {
  enabled = set_or ov.enabled dst.enabled;
  interval_hours = set_or ov.interval_hours dst.interval_hours;
  retention_sent_days = set_or ov.retention_sent_days dst.retention_sent_days;
  retention_failed_days = set_or ov.retention_failed_days dst.retention_failed_days;
  retention_queue_days = set_or ov.retention_queue_days dst.retention_queue_days;
  max_db_mb = set_or ov.max_db_mb dst.max_db_mb;
  max_upload_rows = set_or ov.max_upload_rows dst.max_upload_rows;
  first_run_preview = set_or ov.first_run_preview dst.first_run_preview;
  vacuum_cooldown_hours = set_or ov.vacuum_cooldown_hours dst.vacuum_cooldown_hours;
  vacuum_min_reclaim_mb = set_or ov.vacuum_min_reclaim_mb dst.vacuum_min_reclaim_mb;
}

unfoldable pub apply_mcp : McpConfig → McpOverlay → McpConfig
unfolding set_or
apply_mcp dst ov = record {
  enabled = set_or ov.enabled dst.enabled;
  host = set_or ov.host dst.host;
  port = set_or ov.port dst.port;
  token = set_or ov.token dst.token;
  allow_roots = set_or ov.allow_roots dst.allow_roots;
  control_db = set_or ov.control_db dst.control_db;
  event_retention_hours = set_or ov.event_retention_hours dst.event_retention_hours;
  max_concurrent_jobs = set_or ov.max_concurrent_jobs dst.max_concurrent_jobs;
  enable_sse = set_or ov.enable_sse dst.enable_sse;
  allowed_origins = set_or ov.allowed_origins dst.allowed_origins;
}

-- The legacy `[upload].state`, which counts only where the overlay's paths name no state file.
unfoldable pub compat_state : Overlay → Option Text
compat_state ov = elim ov.paths.state_path [
  | some path ↦ none
  | none ↦ elim ov.paths.state_path_legacy [ some path ↦ none | none ↦ ov.upload.state_path_compat ]
]

-- One round of the loop of `Merge`.
unfoldable pub apply_overlay : Config → Overlay → Config
unfolding set_or compat_state apply_telegram apply_paths apply_scan apply_plan apply_upload
    apply_maintenance apply_mcp
apply_overlay c ov =
    let paths = apply_paths c.paths ov.paths in
    record {
      telegram = apply_telegram c.telegram ov.telegram;
      paths = record paths { state_path = set_or (compat_state ov) paths.state_path };
      scan = apply_scan c.scan ov.scan;
      plan = apply_plan c.plan ov.plan;
      upload = apply_upload c.upload ov.upload;
      maintenance = apply_maintenance c.maintenance ov.maintenance;
      mcp = apply_mcp c.mcp ov.mcp;
    }

-- `Merge`.
unfoldable pub merge : Config → List Overlay → Config
unfolding apply_overlay
merge base [] = base
merge base (ov ∷ overlays) = merge (apply_overlay base ov) overlays

-- `Default`.
abbrev pub default : Config
default = record {
  telegram = record {
    api_id = pos 0;
    api_hash = codes "";
    session_path = codes "./secrets/session.session";
  };
  paths = record { state_path = codes "./data/state.sqlite"; artifacts_dir = codes "./data/runs" };
  scan = record {
    src = [];
    recursive = true;
    follow_symlinks = false;
    include_ext = [];
    exclude_ext = [];
  };
  plan = record { order = codes "mtime"; reverse = false; album_max = pos 10 };
  upload = record {
    target = codes "me";
    caption = codes "";
    parse_mode = codes "plain";
    concurrency_album = pos 2;
    threads = pos 8;
    pool_size = pos 4;
    resume = true;
    strict_metadata = false;
    image_mode = codes "auto";
    video_thumbnail = codes "auto";
    duplicate = codes "ask";
  };
  maintenance = record {
    enabled = true;
    interval_hours = pos 6000000;
    retention_sent_days = pos 90;
    retention_failed_days = pos 30;
    retention_queue_days = pos 7;
    max_db_mb = pos 256;
    max_upload_rows = pos 300000;
    first_run_preview = true;
    vacuum_cooldown_hours = pos 24000000;
    vacuum_min_reclaim_mb = pos 32;
  };
  mcp = record {
    enabled = false;
    host = codes "127.0.0.1";
    port = pos 8765;
    token = codes "";
    allow_roots = codes "./media" ∷ codes "./data" ∷ codes "./secrets" ∷ [];
    control_db = codes "./data/mcp.sqlite";
    event_retention_hours = pos 72000000;
    max_concurrent_jobs = pos 4;
    enable_sse = true;
    allowed_origins = [];
  };
}

-- What resolving comes to: a configuration, or the errors of its check.
pub data Resolved : Type 0 where
  resolved : Config → Resolved
  rejected : List ValidationError → Resolved

unfoldable pub checked : Config → List ValidationError → Resolved
checked cfg [] = resolved cfg
checked cfg (e ∷ es) = rejected (e ∷ es)

-- `ResolveWithFileOverlays`, from the overlays of the files.
unfoldable pub resolve_with_file_overlays : Config → List Overlay → Overlay → Overlay → Resolved
unfolding checked
resolve_with_file_overlays defaults files env cli =
    let cfg = merge defaults (files ++ env ∷ cli ∷ []) in checked cfg (validate cfg)

-- The end of `resolveTelegramOnly`, which checks the Telegram settings alone.
unfoldable pub resolve_telegram_only : List Overlay → Overlay → Overlay → Resolved
unfolding checked
resolve_telegram_only files env cli =
    let cfg = merge default (files ++ env ∷ cli ∷ []) in checked cfg (validate_telegram cfg)
