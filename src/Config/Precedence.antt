-- ===== src/Config/Precedence.antt =====
-- Which overlay a merged setting comes from (internal/config/merge.go: `Merge`).
use tgup.Prelude.{◌≡◌, refl, ap, ◌∙◌, List, [], ◌∷◌, map, Option}
use tgup.Prelude.Text.{Text}
use tgup.Config.Model.{Config, Overlay}
use tgup.Config.Merge.{
  set_or, or_legacy, normalized, apply_overlay, compat_state, merge, apply_telegram, apply_paths,
  apply_scan, apply_plan, apply_upload, apply_maintenance, apply_mcp,
}
use tgup.Prelude.{arith}

-- The last value that is set, or else the first value.
unfoldable pub last_set {ℓ} : {A : Type ℓ} → List (Option A) → A → A
unfolding set_or
last_set [] a = a
last_set (o ∷ os) a = last_set os (set_or o a)

merge_field {ℓ} :
    {A : Type ℓ} (get : Config → A) (set_by : Overlay → Option A)
    → ((c : Config) (ov : Overlay) → get (apply_overlay c ov) ≡ set_or (set_by ov) (get c))
    → (base : Config) (overlays : List Overlay)
    → get (merge base overlays) ≡ last_set (map set_by overlays) (get base)
unfolding merge last_set
merge_field get set_by h base [] = refl
merge_field get set_by h base (ov ∷ overlays) =
    merge_field get set_by h (apply_overlay base ov) overlays
    ∙ ap (λ a. last_set (map set_by overlays) a) (h base ov)

-- The name under which an overlay sets the state file, the current one first.
unfoldable pub state_file : Overlay → Option Text
unfolding or_legacy
state_file ov =
    or_legacy ov.paths.state_path (or_legacy ov.paths.state_path_legacy ov.upload.state_path_compat)

state_file_lem :
    (c : Config) (ov : Overlay)
    → (apply_overlay c ov).paths.state_path ≡ set_or (state_file ov) c.paths.state_path
unfolding apply_overlay apply_paths compat_state state_file
state_file_lem c ov = ground arith

-- Every setting is the last one that an overlay sets, under its name or a legacy one, or that of the
-- base where none does.
pub record Precedence (base : Config) (overlays : List Overlay) : Type 0 where
  pub telegram_api_id :
      (merge base overlays).telegram.api_id
      ≡ last_set (map (λ ov. ov.telegram.api_id) overlays) base.telegram.api_id
  pub telegram_api_hash :
      (merge base overlays).telegram.api_hash
      ≡ last_set (map (λ ov. ov.telegram.api_hash) overlays) base.telegram.api_hash
  pub telegram_session_path :
      (merge base overlays).telegram.session_path
      ≡ last_set
          (map (λ ov. or_legacy ov.telegram.session_path ov.telegram.session_path_legacy) overlays)
          base.telegram.session_path
  pub paths_state_path :
      (merge base overlays).paths.state_path
      ≡ last_set (map state_file overlays) base.paths.state_path
  pub paths_artifacts_dir :
      (merge base overlays).paths.artifacts_dir
      ≡ last_set (map (λ ov. ov.paths.artifacts_dir) overlays) base.paths.artifacts_dir
  pub scan_src :
      (merge base overlays).scan.src ≡ last_set (map (λ ov. ov.scan.src) overlays) base.scan.src
  pub scan_recursive :
      (merge base overlays).scan.recursive
      ≡ last_set (map (λ ov. ov.scan.recursive) overlays) base.scan.recursive
  pub scan_follow_symlinks :
      (merge base overlays).scan.follow_symlinks
      ≡ last_set (map (λ ov. ov.scan.follow_symlinks) overlays) base.scan.follow_symlinks
  pub scan_include_ext :
      (merge base overlays).scan.include_ext
      ≡ last_set (map (λ ov. normalized ov.scan.include_ext) overlays) base.scan.include_ext
  pub scan_exclude_ext :
      (merge base overlays).scan.exclude_ext
      ≡ last_set (map (λ ov. normalized ov.scan.exclude_ext) overlays) base.scan.exclude_ext
  pub plan_order :
      (merge base overlays).plan.order
      ≡ last_set (map (λ ov. ov.plan.order) overlays) base.plan.order
  pub plan_reverse :
      (merge base overlays).plan.reverse
      ≡ last_set (map (λ ov. ov.plan.reverse) overlays) base.plan.reverse
  pub plan_album_max :
      (merge base overlays).plan.album_max
      ≡ last_set (map (λ ov. ov.plan.album_max) overlays) base.plan.album_max
  pub upload_target :
      (merge base overlays).upload.target
      ≡ last_set (map (λ ov. ov.upload.target) overlays) base.upload.target
  pub upload_caption :
      (merge base overlays).upload.caption
      ≡ last_set (map (λ ov. ov.upload.caption) overlays) base.upload.caption
  pub upload_parse_mode :
      (merge base overlays).upload.parse_mode
      ≡ last_set (map (λ ov. ov.upload.parse_mode) overlays) base.upload.parse_mode
  pub upload_concurrency_album :
      (merge base overlays).upload.concurrency_album
      ≡ last_set (map (λ ov. ov.upload.concurrency_album) overlays) base.upload.concurrency_album
  pub upload_threads :
      (merge base overlays).upload.threads
      ≡ last_set (map (λ ov. ov.upload.threads) overlays) base.upload.threads
  pub upload_pool_size :
      (merge base overlays).upload.pool_size
      ≡ last_set (map (λ ov. ov.upload.pool_size) overlays) base.upload.pool_size
  pub upload_resume :
      (merge base overlays).upload.resume
      ≡ last_set (map (λ ov. ov.upload.resume) overlays) base.upload.resume
  pub upload_strict_metadata :
      (merge base overlays).upload.strict_metadata
      ≡ last_set (map (λ ov. ov.upload.strict_metadata) overlays) base.upload.strict_metadata
  pub upload_image_mode :
      (merge base overlays).upload.image_mode
      ≡ last_set (map (λ ov. ov.upload.image_mode) overlays) base.upload.image_mode
  pub upload_video_thumbnail :
      (merge base overlays).upload.video_thumbnail
      ≡ last_set (map (λ ov. ov.upload.video_thumbnail) overlays) base.upload.video_thumbnail
  pub upload_duplicate :
      (merge base overlays).upload.duplicate
      ≡ last_set (map (λ ov. ov.upload.duplicate) overlays) base.upload.duplicate
  pub maintenance_enabled :
      (merge base overlays).maintenance.enabled
      ≡ last_set (map (λ ov. ov.maintenance.enabled) overlays) base.maintenance.enabled
  pub maintenance_interval_hours :
      (merge base overlays).maintenance.interval_hours
      ≡ last_set
          (map (λ ov. ov.maintenance.interval_hours) overlays)
          base.maintenance.interval_hours
  pub maintenance_retention_sent_days :
      (merge base overlays).maintenance.retention_sent_days
      ≡ last_set
          (map (λ ov. ov.maintenance.retention_sent_days) overlays)
          base.maintenance.retention_sent_days
  pub maintenance_retention_failed_days :
      (merge base overlays).maintenance.retention_failed_days
      ≡ last_set
          (map (λ ov. ov.maintenance.retention_failed_days) overlays)
          base.maintenance.retention_failed_days
  pub maintenance_retention_queue_days :
      (merge base overlays).maintenance.retention_queue_days
      ≡ last_set
          (map (λ ov. ov.maintenance.retention_queue_days) overlays)
          base.maintenance.retention_queue_days
  pub maintenance_max_db_mb :
      (merge base overlays).maintenance.max_db_mb
      ≡ last_set (map (λ ov. ov.maintenance.max_db_mb) overlays) base.maintenance.max_db_mb
  pub maintenance_max_upload_rows :
      (merge base overlays).maintenance.max_upload_rows
      ≡ last_set
          (map (λ ov. ov.maintenance.max_upload_rows) overlays)
          base.maintenance.max_upload_rows
  pub maintenance_first_run_preview :
      (merge base overlays).maintenance.first_run_preview
      ≡ last_set
          (map (λ ov. ov.maintenance.first_run_preview) overlays)
          base.maintenance.first_run_preview
  pub maintenance_vacuum_cooldown_hours :
      (merge base overlays).maintenance.vacuum_cooldown_hours
      ≡ last_set
          (map (λ ov. ov.maintenance.vacuum_cooldown_hours) overlays)
          base.maintenance.vacuum_cooldown_hours
  pub maintenance_vacuum_min_reclaim_mb :
      (merge base overlays).maintenance.vacuum_min_reclaim_mb
      ≡ last_set
          (map (λ ov. ov.maintenance.vacuum_min_reclaim_mb) overlays)
          base.maintenance.vacuum_min_reclaim_mb
  pub mcp_enabled :
      (merge base overlays).mcp.enabled
      ≡ last_set (map (λ ov. ov.mcp.enabled) overlays) base.mcp.enabled
  pub mcp_host :
      (merge base overlays).mcp.host ≡ last_set (map (λ ov. ov.mcp.host) overlays) base.mcp.host
  pub mcp_port :
      (merge base overlays).mcp.port ≡ last_set (map (λ ov. ov.mcp.port) overlays) base.mcp.port
  pub mcp_token :
      (merge base overlays).mcp.token ≡ last_set (map (λ ov. ov.mcp.token) overlays) base.mcp.token
  pub mcp_allow_roots :
      (merge base overlays).mcp.allow_roots
      ≡ last_set (map (λ ov. ov.mcp.allow_roots) overlays) base.mcp.allow_roots
  pub mcp_control_db :
      (merge base overlays).mcp.control_db
      ≡ last_set (map (λ ov. ov.mcp.control_db) overlays) base.mcp.control_db
  pub mcp_event_retention_hours :
      (merge base overlays).mcp.event_retention_hours
      ≡ last_set (map (λ ov. ov.mcp.event_retention_hours) overlays) base.mcp.event_retention_hours
  pub mcp_max_concurrent_jobs :
      (merge base overlays).mcp.max_concurrent_jobs
      ≡ last_set (map (λ ov. ov.mcp.max_concurrent_jobs) overlays) base.mcp.max_concurrent_jobs
  pub mcp_enable_sse :
      (merge base overlays).mcp.enable_sse
      ≡ last_set (map (λ ov. ov.mcp.enable_sse) overlays) base.mcp.enable_sse
  pub mcp_allowed_origins :
      (merge base overlays).mcp.allowed_origins
      ≡ last_set (map (λ ov. ov.mcp.allowed_origins) overlays) base.mcp.allowed_origins

-- `Merge` applies the overlays from left to right: for every setting the last overlay that sets it
-- decides, and the base where none sets it.
pub merge-Precedence : (base : Config) (overlays : List Overlay) → Precedence base overlays
unfolding apply_overlay apply_telegram apply_paths apply_scan apply_plan apply_upload
    apply_maintenance apply_mcp
merge-Precedence base overlays = record {
  telegram_api_id =
      merge_field (λ c. c.telegram.api_id) (λ ov. ov.telegram.api_id) (λ c ov. refl) base overlays;
  telegram_api_hash =
      merge_field (λ c. c.telegram.api_hash) (λ ov. ov.telegram.api_hash) (λ c ov. refl) base
        overlays;
  telegram_session_path =
      merge_field (λ c. c.telegram.session_path)
        (λ ov. or_legacy ov.telegram.session_path ov.telegram.session_path_legacy) (λ c ov. refl)
        base overlays;
  paths_state_path =
      merge_field (λ c. c.paths.state_path) state_file (state_file_lem) base overlays;
  paths_artifacts_dir =
      merge_field (λ c. c.paths.artifacts_dir) (λ ov. ov.paths.artifacts_dir) (λ c ov. refl) base
        overlays;
  scan_src = merge_field (λ c. c.scan.src) (λ ov. ov.scan.src) (λ c ov. refl) base overlays;
  scan_recursive =
      merge_field (λ c. c.scan.recursive) (λ ov. ov.scan.recursive) (λ c ov. refl) base overlays;
  scan_follow_symlinks =
      merge_field (λ c. c.scan.follow_symlinks) (λ ov. ov.scan.follow_symlinks) (λ c ov. refl) base
        overlays;
  scan_include_ext =
      merge_field (λ c. c.scan.include_ext) (λ ov. normalized ov.scan.include_ext) (λ c ov. refl)
        base overlays;
  scan_exclude_ext =
      merge_field (λ c. c.scan.exclude_ext) (λ ov. normalized ov.scan.exclude_ext) (λ c ov. refl)
        base overlays;
  plan_order = merge_field (λ c. c.plan.order) (λ ov. ov.plan.order) (λ c ov. refl) base overlays;
  plan_reverse =
      merge_field (λ c. c.plan.reverse) (λ ov. ov.plan.reverse) (λ c ov. refl) base overlays;
  plan_album_max =
      merge_field (λ c. c.plan.album_max) (λ ov. ov.plan.album_max) (λ c ov. refl) base overlays;
  upload_target =
      merge_field (λ c. c.upload.target) (λ ov. ov.upload.target) (λ c ov. refl) base overlays;
  upload_caption =
      merge_field (λ c. c.upload.caption) (λ ov. ov.upload.caption) (λ c ov. refl) base overlays;
  upload_parse_mode =
      merge_field (λ c. c.upload.parse_mode) (λ ov. ov.upload.parse_mode) (λ c ov. refl) base
        overlays;
  upload_concurrency_album =
      merge_field (λ c. c.upload.concurrency_album) (λ ov. ov.upload.concurrency_album)
        (λ c ov. refl) base overlays;
  upload_threads =
      merge_field (λ c. c.upload.threads) (λ ov. ov.upload.threads) (λ c ov. refl) base overlays;
  upload_pool_size =
      merge_field (λ c. c.upload.pool_size) (λ ov. ov.upload.pool_size) (λ c ov. refl) base
        overlays;
  upload_resume =
      merge_field (λ c. c.upload.resume) (λ ov. ov.upload.resume) (λ c ov. refl) base overlays;
  upload_strict_metadata =
      merge_field (λ c. c.upload.strict_metadata) (λ ov. ov.upload.strict_metadata) (λ c ov. refl)
        base overlays;
  upload_image_mode =
      merge_field (λ c. c.upload.image_mode) (λ ov. ov.upload.image_mode) (λ c ov. refl) base
        overlays;
  upload_video_thumbnail =
      merge_field (λ c. c.upload.video_thumbnail) (λ ov. ov.upload.video_thumbnail) (λ c ov. refl)
        base overlays;
  upload_duplicate =
      merge_field (λ c. c.upload.duplicate) (λ ov. ov.upload.duplicate) (λ c ov. refl) base
        overlays;
  maintenance_enabled =
      merge_field (λ c. c.maintenance.enabled) (λ ov. ov.maintenance.enabled) (λ c ov. refl) base
        overlays;
  maintenance_interval_hours =
      merge_field (λ c. c.maintenance.interval_hours) (λ ov. ov.maintenance.interval_hours)
        (λ c ov. refl) base overlays;
  maintenance_retention_sent_days =
      merge_field (λ c. c.maintenance.retention_sent_days)
        (λ ov. ov.maintenance.retention_sent_days) (λ c ov. refl) base overlays;
  maintenance_retention_failed_days =
      merge_field (λ c. c.maintenance.retention_failed_days)
        (λ ov. ov.maintenance.retention_failed_days) (λ c ov. refl) base overlays;
  maintenance_retention_queue_days =
      merge_field (λ c. c.maintenance.retention_queue_days)
        (λ ov. ov.maintenance.retention_queue_days) (λ c ov. refl) base overlays;
  maintenance_max_db_mb =
      merge_field (λ c. c.maintenance.max_db_mb) (λ ov. ov.maintenance.max_db_mb) (λ c ov. refl)
        base overlays;
  maintenance_max_upload_rows =
      merge_field (λ c. c.maintenance.max_upload_rows) (λ ov. ov.maintenance.max_upload_rows)
        (λ c ov. refl) base overlays;
  maintenance_first_run_preview =
      merge_field (λ c. c.maintenance.first_run_preview) (λ ov. ov.maintenance.first_run_preview)
        (λ c ov. refl) base overlays;
  maintenance_vacuum_cooldown_hours =
      merge_field (λ c. c.maintenance.vacuum_cooldown_hours)
        (λ ov. ov.maintenance.vacuum_cooldown_hours) (λ c ov. refl) base overlays;
  maintenance_vacuum_min_reclaim_mb =
      merge_field (λ c. c.maintenance.vacuum_min_reclaim_mb)
        (λ ov. ov.maintenance.vacuum_min_reclaim_mb) (λ c ov. refl) base overlays;
  mcp_enabled =
      merge_field (λ c. c.mcp.enabled) (λ ov. ov.mcp.enabled) (λ c ov. refl) base overlays;
  mcp_host = merge_field (λ c. c.mcp.host) (λ ov. ov.mcp.host) (λ c ov. refl) base overlays;
  mcp_port = merge_field (λ c. c.mcp.port) (λ ov. ov.mcp.port) (λ c ov. refl) base overlays;
  mcp_token = merge_field (λ c. c.mcp.token) (λ ov. ov.mcp.token) (λ c ov. refl) base overlays;
  mcp_allow_roots =
      merge_field (λ c. c.mcp.allow_roots) (λ ov. ov.mcp.allow_roots) (λ c ov. refl) base overlays;
  mcp_control_db =
      merge_field (λ c. c.mcp.control_db) (λ ov. ov.mcp.control_db) (λ c ov. refl) base overlays;
  mcp_event_retention_hours =
      merge_field (λ c. c.mcp.event_retention_hours) (λ ov. ov.mcp.event_retention_hours)
        (λ c ov. refl) base overlays;
  mcp_max_concurrent_jobs =
      merge_field (λ c. c.mcp.max_concurrent_jobs) (λ ov. ov.mcp.max_concurrent_jobs) (λ c ov. refl)
        base overlays;
  mcp_enable_sse =
      merge_field (λ c. c.mcp.enable_sse) (λ ov. ov.mcp.enable_sse) (λ c ov. refl) base overlays;
  mcp_allowed_origins =
      merge_field (λ c. c.mcp.allowed_origins) (λ ov. ov.mcp.allowed_origins) (λ c ov. refl) base
        overlays;
}
