-- ===== src/Mcp/Bridge.antt =====
-- The dry run that a client of the server asks for (internal/mcp/bridge.go, with
-- internal/mcp/security.go, `EnsureWithinRoot` of internal/files/security.go, and the types of
-- internal/mcp/model.go). It composes the settings, discovery and planning.
use tgup.Prelude.{
  ℕ, Bool, true, false, not, ◌||◌, Option, none, some, List, [], ◌∷◌, map, length, take,
  if◌then◌else◌,
}
use tgup.Prelude.Int.{ℤ}
use tgup.Prelude.Text.{Text, codes, text_eq, has_prefix, trim_space}
use tgup.Config.Model.{Config, Overlay}
use tgup.Config.Env.{Environment}
use tgup.Config.Resolve.{resolve}
use tgup.Scan.Model.{Item}
use tgup.Scan.Filter.{is_empty}
use tgup.Scan.Discover.{
  FileSystem, ScanError, Discovered, found, scan_failed, endless, discover, key_from,
}
use tgup.Scan.Discover as S
use tgup.Plan.Model.{Album, Plan}
use tgup.Plan.Model as P
use tgup.Plan.Sort.{Sorter}
use tgup.Plan.Build.{build}

pub record RunSpec : Type 0 where
  pub src : List Text
  pub recursive : Option Bool
  pub follow_symlinks : Option Bool
  pub include_ext : List Text
  pub exclude_ext : List Text
  pub order : Text
  pub reverse : Option Bool
  pub album_max : Option ℤ
  pub target : Text
  pub caption : Text
  pub parse_mode : Text
  pub concurrency : Option ℤ
  pub resume : Option Bool
  pub strict_metadata : Option Bool
  pub image_mode : Text
  pub video_thumbnail : Text
  pub duplicate : Text
  pub config_path : Text

pub record AlbumPreview : Type 0 where
  pub label : Text
  pub count : ℕ
  pub items : List Text

pub record DryRunOutput : Type 0 where
  pub sources : List Text
  pub items : ℕ
  pub albums : ℕ
  pub order : Text
  pub reverse : Bool
  pub album_max : ℤ
  pub preview : List AlbumPreview

unfoldable pub if_any : {A : Type 0} → List A → Option (List A)
unfolding is_empty
if_any xs = if is_empty xs then none else some xs

-- `specToOverlay`.
unfoldable pub spec_to_overlay : RunSpec → Overlay
unfolding if_any
spec_to_overlay spec = record {
  telegram = record {
    api_id = none;
    api_hash = none;
    session_path = none;
    session_path_legacy = none;
  };
  paths = record { state_path = none; artifacts_dir = none; state_path_legacy = none };
  scan = record {
    src = if_any spec.src;
    recursive = spec.recursive;
    follow_symlinks = spec.follow_symlinks;
    include_ext = if_any spec.include_ext;
    exclude_ext = if_any spec.exclude_ext;
  };
  plan = record { order = if_any spec.order; reverse = spec.reverse; album_max = spec.album_max };
  upload = record {
    target = if_any spec.target;
    caption = if_any spec.caption;
    parse_mode = if_any spec.parse_mode;
    concurrency_album = spec.concurrency;
    threads = none;
    pool_size = none;
    resume = spec.resume;
    strict_metadata = spec.strict_metadata;
    image_mode = if_any spec.image_mode;
    video_thumbnail = if_any spec.video_thumbnail;
    duplicate = if_any spec.duplicate;
    state_path_compat = none;
  };
  maintenance = record {
    enabled = none;
    interval_hours = none;
    retention_sent_days = none;
    retention_failed_days = none;
    retention_queue_days = none;
    max_db_mb = none;
    max_upload_rows = none;
    first_run_preview = none;
    vacuum_cooldown_hours = none;
    vacuum_min_reclaim_mb = none;
  };
  mcp = record {
    enabled = none;
    host = none;
    port = none;
    token = none;
    allow_roots = none;
    control_db = none;
    event_retention_hours = none;
    max_concurrent_jobs = none;
    enable_sse = none;
    allowed_origins = none;
  };
}

-- A relative path that leads out of its base.
unfoldable pub leads_out : Option Text → Bool
leads_out none = true
leads_out (some rel) = text_eq rel (codes "..") || has_prefix rel (codes "../")

module _ (fs : FileSystem) where
  -- The clean path that the links of a path lead to, or the path itself.
  unfoldable pub evaluated : Text → Text
  unfolding key_from
  evaluated path = key_from fs (fs.clean path) (fs.eval_symlinks (fs.clean path))

  unfoldable pub within : Option Text → Option Text → Bool
  unfolding evaluated leads_out
  within (some root) (some target) = not (leads_out (fs.rel (evaluated root) (evaluated target)))
  within _ _ = false

  -- `EnsureWithinRoot`, true where it returns no error.
  unfoldable pub ensure_within_root : Text → Text → Bool
  unfolding within is_empty
  ensure_within_root root target =
      if is_empty (trim_space root) then false else within (fs.abs root) (fs.abs target)

  unfoldable pub some_root : List Text → Text → Bool
  unfolding ensure_within_root
  some_root [] path = false
  some_root (root ∷ roots) path = ensure_within_root root path || some_root roots path

  -- `validatePaths`: the first path outside of all roots.
  unfoldable pub validate_paths : List Text → List Text → Option Text
  unfolding some_root
  validate_paths roots [] = none
  validate_paths roots (path ∷ paths) =
      let rest = validate_paths roots paths in if some_root roots path then rest else some path

-- The items of an album in its preview.
unfoldable pub preview_items : Bool → List Item → List Text
preview_items show items = if show then take 10 (map (λ i. i.path) items) else []

unfoldable pub preview_album : Bool → Album → AlbumPreview
unfolding preview_items
preview_album show a = record {
  label = a.label;
  count = length a.items;
  items = preview_items show a.items;
}

-- The loop over the albums, 20 of them at most.
unfoldable pub previews : Bool → List Album → List AlbumPreview
unfolding preview_album
previews show albums = map (preview_album show) (take 20 albums)

-- What a dry run comes to.
pub data DryRun : Type 0 where
  previewed : DryRunOutput → DryRun
  no_config : DryRun
  outside : Text → DryRun
  scan_error : ScanError → DryRun
  endless_scan : DryRun
  panicked : DryRun

unfoldable pub output : Bool → Config → List Item → Option Plan → DryRun
unfolding previews
output show cfg items none = panicked
output show cfg items (some pl) = previewed (record {
  sources = cfg.scan.src;
  items = length items;
  albums = length pl.albums;
  order = cfg.plan.order;
  reverse = cfg.plan.reverse;
  album_max = cfg.plan.album_max;
  preview = previews show pl.albums;
})

unfoldable pub scan_options : Config → S.Options
scan_options cfg = record {
  src = cfg.scan.src;
  recursive = cfg.scan.recursive;
  follow_symlinks = cfg.scan.follow_symlinks;
  include_ext = cfg.scan.include_ext;
  exclude_ext = cfg.scan.exclude_ext;
}

unfoldable pub plan_options : Config → P.Options
plan_options cfg = record {
  order = cfg.plan.order;
  reverse = cfg.plan.reverse;
  album_max = cfg.plan.album_max;
}

unfoldable pub plan_found : Sorter → Bool → Config → Discovered → DryRun
unfolding output plan_options
plan_found sorter show cfg (found items) =
    output show cfg items (build sorter items (plan_options cfg))
plan_found sorter show cfg (scan_failed e) = scan_error e
plan_found sorter show cfg endless = endless_scan

module _ (fs : FileSystem) (sorter : Sorter) (fuel : ℕ) (roots : List Text) (show : Bool) where
  unfoldable pub scan_checked : Config → Option Text → DryRun
  unfolding plan_found scan_options discover
  scan_checked cfg (some path) = outside path
  scan_checked cfg none = plan_found sorter show cfg (discover fs sorter fuel (scan_options cfg))

  unfoldable pub with_config : Option Config → DryRun
  unfolding scan_checked validate_paths
  with_config none = no_config
  with_config (some cfg) = scan_checked cfg (validate_paths fs roots cfg.scan.src)

  -- `DryRun`, on what loading the files gives.
  unfoldable pub dry_run : Option (List Overlay) → Environment → RunSpec → DryRun
  unfolding with_config resolve spec_to_overlay
  dry_run files env spec = with_config (resolve files env (spec_to_overlay spec))
