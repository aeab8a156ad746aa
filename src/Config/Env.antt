-- ===== src/Config/Env.antt =====
-- The overlay of the environment (internal/config/env.go). The environment is a function; package
-- strconv is a parameter. An error names its variables.
use tgup.Prelude.{
  ℕ, Bool, true, false, Option, none, some, List, [], ◌∷◌, ◌++◌, ◌==◌, if◌then◌else◌,
}
use tgup.Prelude.Int.{ℤ}
use tgup.Prelude.Text.{Text, codes, text_eq, text_ltb, to_lower, trim_space}
use tgup.Config.Model.{
  Hours, Overlay, TelegramOverlay, PathsOverlay, ScanOverlay, PlanOverlay, UploadOverlay,
  MaintenanceOverlay, McpOverlay,
}
use tgup.Config.Validate.{one_of}

pub data EnvError : Type 0 where
  invalid_bool invalid_int invalid_float : Text → EnvError
  conflicting : Text → Text → EnvError

pub data Loaded {ℓ} (A : Type ℓ) : Type ℓ where
  loaded : A → Loaded A
  bad : EnvError → Loaded A

infixl 5 ◌>>=◌
abbrev pub ◌>>=◌ {ℓ κ} : {A : Type ℓ} {B : Type κ} → Loaded A → (A → Loaded B) → Loaded B
loaded a >>= f = f a
bad e >>= f = bad e

-- Package os and package strconv.
pub record Environment : Type 0 where
  pub lookup : Text → Option Text
  pub atoi : Text → Option ℤ
  pub parse_float : Text → Option Hours

abbrev comma : ℕ
comma = b','

-- `strings.Split` at commas: the part before the first, and the rest.
unfoldable pub split_from : Text → Text → List Text
split_from part [] = part ∷ []
split_from part (c ∷ s) = elim (c == comma) [
  | true ↦ part ∷ split_from [] s
  | false ↦ split_from (part ++ c ∷ []) s
]

unfoldable pub is_blank : Text → Bool
is_blank [] = true
is_blank (c ∷ s) = false

unfoldable pub trimmed_parts : List Text → List Text
unfolding is_blank
trimmed_parts [] = []
trimmed_parts (part ∷ parts) =
    let p = trim_space part in
    let rest = trimmed_parts parts in if is_blank p then rest else p ∷ rest

-- `splitCSV`.
unfoldable pub split_csv : Text → List Text
unfolding split_from trimmed_parts
split_csv value = trimmed_parts (split_from [] value)

-- `parseBoolLike`.
unfoldable pub parse_bool_like : Text → Option Bool
unfolding one_of
parse_bool_like value =
    let v = to_lower (trim_space value) in
    if one_of v (codes "1" ∷ codes "true" ∷ codes "yes" ∷ codes "on" ∷ [])
    then some true
    else if one_of v (codes "0" ∷ codes "false" ∷ codes "no" ∷ codes "off" ∷ [])
    then some false
    else none

-- A variable that is set must have a value that can be read.
unfoldable pub parsed_as : {A : Type 0} → (Text → EnvError) → Text → Option A → Loaded (Option A)
parsed_as invalid key none = bad (invalid key)
parsed_as invalid key (some a) = loaded (some a)

unfoldable pub read_as :
    {A : Type 0} → (Text → EnvError) → (Text → Option A) → Text → Option Text → Loaded (Option A)
unfolding parsed_as
read_as invalid parse key none = loaded none
read_as invalid parse key (some v) = parsed_as invalid key (parse v)

unfoldable pub conflict : Text → Text → Option Text → Option Text → Loaded {0} Unit
conflict key_a key_b (some a) (some b) =
    if text_eq (trim_space a) (trim_space b)
    then loaded tt
    else if text_ltb key_b key_a
    then bad (conflicting key_b key_a)
    else bad (conflicting key_a key_b)
conflict key_a key_b _ _ = loaded tt

module _ (env : Environment) where
  -- `validateNoConflictingKeys`.
  unfoldable pub validate_no_conflicting_keys : Text → Text → Loaded {0} Unit
  unfolding conflict
  validate_no_conflicting_keys key_a key_b =
      conflict key_a key_b (env.lookup key_a) (env.lookup key_b)

  -- The first variable that is set.
  unfoldable pub first_set : List Text → Option Text
  first_set [] = none
  first_set (key ∷ keys) = elim (env.lookup key) [ some v ↦ some v | none ↦ first_set keys ]

  -- `envStringAny`.
  unfoldable pub env_string_any : List Text → Option Text
  unfolding first_set
  env_string_any keys = elim (first_set keys) [ none ↦ none | some v ↦ some (trim_space v) ]

  -- `envCSVAny`.
  unfoldable pub env_csv_any : List Text → Option (List Text)
  unfolding first_set split_csv
  env_csv_any keys = elim (first_set keys) [ none ↦ none | some v ↦ some (split_csv v) ]

  -- `envBoolAny`, `envIntAny` and `envFloatAny`, which are called with one key each.
  unfoldable pub env_bool_any : Text → Loaded (Option Bool)
  unfolding read_as parse_bool_like
  env_bool_any key = read_as invalid_bool parse_bool_like key (env.lookup key)

  unfoldable pub env_int_any : Text → Loaded (Option ℤ)
  unfolding read_as
  env_int_any key = read_as invalid_int (λ v. env.atoi (trim_space v)) key (env.lookup key)

  unfoldable pub env_float_any : Text → Loaded (Option Hours)
  unfolding read_as
  env_float_any key =
      read_as invalid_float (λ v. env.parse_float (trim_space v)) key (env.lookup key)

  -- The parts of `loadEnv`, in its order.
  unfoldable pub load_telegram : Loaded TelegramOverlay
  unfolding env_string_any env_csv_any env_bool_any env_int_any env_float_any
  load_telegram = do
    api_id ← env_int_any (codes "TGUP_API_ID")
    loaded (record {
      api_id = api_id;
      api_hash = env_string_any (codes "TGUP_API_HASH" ∷ []);
      session_path = env_string_any (codes "TGUP_SESSION" ∷ codes "TGUP_SESSION_PATH" ∷ []);
      session_path_legacy = none;
    })

  unfoldable pub load_paths : PathsOverlay
  unfolding env_string_any env_csv_any
  load_paths = record {
    state_path = env_string_any (codes "TGUP_STATE" ∷ codes "TGUP_STATE_PATH" ∷ []);
    artifacts_dir = env_string_any (codes "TGUP_ARTIFACTS_DIR" ∷ []);
    state_path_legacy = none;
  }

  unfoldable pub load_scan : Loaded ScanOverlay
  unfolding env_string_any env_csv_any env_bool_any env_int_any env_float_any
  load_scan = do
    recursive ← env_bool_any (codes "TGUP_RECURSIVE")
    follow_symlinks ← env_bool_any (codes "TGUP_FOLLOW_SYMLINKS")
    loaded (record {
      src = env_csv_any (codes "TGUP_SRC" ∷ []);
      include_ext = env_csv_any (codes "TGUP_INCLUDE_EXT" ∷ []);
      exclude_ext = env_csv_any (codes "TGUP_EXCLUDE_EXT" ∷ []);
      recursive = recursive;
      follow_symlinks = follow_symlinks;
    })

  unfoldable pub load_plan : Loaded PlanOverlay
  unfolding env_string_any env_csv_any env_bool_any env_int_any env_float_any
  load_plan = do
    reverse ← env_bool_any (codes "TGUP_REVERSE")
    album_max ← env_int_any (codes "TGUP_ALBUM_MAX")
    loaded (record {
      order = env_string_any (codes "TGUP_ORDER" ∷ []);
      reverse = reverse;
      album_max = album_max;
    })

  unfoldable pub load_upload : Loaded UploadOverlay
  unfolding env_string_any env_csv_any env_bool_any env_int_any env_float_any
  load_upload = do
    concurrency_album ← env_int_any (codes "TGUP_CONCURRENCY_ALBUM")
    threads ← env_int_any (codes "TGUP_THREADS")
    pool_size ← env_int_any (codes "TGUP_POOL_SIZE")
    resume ← env_bool_any (codes "TGUP_RESUME")
    strict_metadata ← env_bool_any (codes "TGUP_STRICT_METADATA")
    loaded (record {
      target = env_string_any (codes "TGUP_TARGET" ∷ []);
      caption = env_string_any (codes "TGUP_CAPTION" ∷ []);
      parse_mode = env_string_any (codes "TGUP_PARSE_MODE" ∷ []);
      concurrency_album = concurrency_album;
      threads = threads;
      pool_size = pool_size;
      resume = resume;
      strict_metadata = strict_metadata;
      image_mode = env_string_any (codes "TGUP_IMAGE_MODE" ∷ []);
      video_thumbnail = env_string_any (codes "TGUP_VIDEO_THUMBNAIL" ∷ []);
      duplicate = env_string_any (codes "TGUP_DUPLICATE" ∷ []);
      state_path_compat = none;
    })

  unfoldable pub load_maintenance : Loaded MaintenanceOverlay
  unfolding env_string_any env_csv_any env_bool_any env_int_any env_float_any
  load_maintenance = do
    enabled ← env_bool_any (codes "TGUP_MAINTENANCE_ENABLED")
    interval_hours ← env_float_any (codes "TGUP_MAINTENANCE_INTERVAL_HOURS")
    retention_sent_days ← env_int_any (codes "TGUP_MAINTENANCE_RETENTION_SENT_DAYS")
    retention_failed_days ← env_int_any (codes "TGUP_MAINTENANCE_RETENTION_FAILED_DAYS")
    retention_queue_days ← env_int_any (codes "TGUP_MAINTENANCE_RETENTION_QUEUE_DAYS")
    max_db_mb ← env_int_any (codes "TGUP_MAINTENANCE_MAX_DB_MB")
    max_upload_rows ← env_int_any (codes "TGUP_MAINTENANCE_MAX_UPLOAD_ROWS")
    first_run_preview ← env_bool_any (codes "TGUP_MAINTENANCE_FIRST_RUN_PREVIEW")
    vacuum_cooldown_hours ← env_float_any (codes "TGUP_MAINTENANCE_VACUUM_COOLDOWN_HOURS")
    vacuum_min_reclaim_mb ← env_int_any (codes "TGUP_MAINTENANCE_VACUUM_MIN_RECLAIM_MB")
    loaded (record {
      enabled = enabled;
      interval_hours = interval_hours;
      retention_sent_days = retention_sent_days;
      retention_failed_days = retention_failed_days;
      retention_queue_days = retention_queue_days;
      max_db_mb = max_db_mb;
      max_upload_rows = max_upload_rows;
      first_run_preview = first_run_preview;
      vacuum_cooldown_hours = vacuum_cooldown_hours;
      vacuum_min_reclaim_mb = vacuum_min_reclaim_mb;
    })

  unfoldable pub load_mcp : Loaded McpOverlay
  unfolding env_string_any env_csv_any env_bool_any env_int_any env_float_any
  load_mcp = do
    enabled ← env_bool_any (codes "TGUP_MCP_ENABLED")
    port ← env_int_any (codes "TGUP_MCP_PORT")
    event_retention_hours ← env_float_any (codes "TGUP_MCP_EVENT_RETENTION_HOURS")
    max_concurrent_jobs ← env_int_any (codes "TGUP_MCP_MAX_CONCURRENT_JOBS")
    enable_sse ← env_bool_any (codes "TGUP_MCP_ENABLE_SSE")
    loaded (record {
      enabled = enabled;
      host = env_string_any (codes "TGUP_MCP_HOST" ∷ []);
      port = port;
      token = env_string_any (codes "TGUP_MCP_TOKEN" ∷ []);
      allow_roots = env_csv_any (codes "TGUP_MCP_ALLOW_ROOTS" ∷ []);
      control_db = env_string_any (codes "TGUP_MCP_CONTROL_DB" ∷ []);
      event_retention_hours = event_retention_hours;
      max_concurrent_jobs = max_concurrent_jobs;
      enable_sse = enable_sse;
      allowed_origins = env_csv_any (codes "TGUP_MCP_ALLOWED_ORIGINS" ∷ []);
    })

  -- `loadEnv`.
  unfoldable pub load_env : Loaded Overlay
  unfolding validate_no_conflicting_keys load_telegram load_paths load_scan load_plan load_upload
      load_maintenance load_mcp
  load_env = do
    session ← validate_no_conflicting_keys (codes "TGUP_SESSION") (codes "TGUP_SESSION_PATH")
    state ← validate_no_conflicting_keys (codes "TGUP_STATE") (codes "TGUP_STATE_PATH")
    telegram ← load_telegram
    scan ← load_scan
    plan ← load_plan
    upload ← load_upload
    maintenance ← load_maintenance
    mcp ← load_mcp
    loaded (record {
      telegram = telegram;
      paths = load_paths;
      scan = scan;
      plan = plan;
      upload = upload;
      maintenance = maintenance;
      mcp = mcp;
    })
