-- ===== src/Config/Tests.antt =====
-- Tests of the settings.
use tgup.Prelude.{◌≡◌, ◌↔◌, ◌&&◌, if◌then◌else◌, refl, arith, true, [], ◌∷◌, none, some}
use tgup.Prelude.Text.{codes, text_eq, text_eq_iff, to_lower, trim_space}
use tgup.Prelude.Int.{pos}
use tgup.Errors.{ok}
use tgup.Config.Model.{Config, Overlay}
use tgup.Config.Validate.{validate, one_of}
use tgup.Config.Merge.{resolved, merge, default, resolve_with_file_overlays}
use tgup.Config.Precedence.{Precedence, merge-Precedence}
use tgup.Config.Valid.{IsValid, validate-IsValid, resolve-IsValid, mixed_case_upload_skips}
use tgup.Config.Env.{Environment, bad, invalid_bool, load_env, split_csv}
use tgup.Config.Loads.{succeeds, agree, all_readable, typed_variables, load_env-succeeds}
use tgup.Upload.Steps.{is_skipped}

abbrev unset : Overlay
unset = record {
  telegram = record {
    api_id = none;
    api_hash = none;
    session_path = none;
    session_path_legacy = none;
  };
  paths = record { state_path = none; state_path_legacy = none; artifacts_dir = none };
  scan = record {
    src = none;
    recursive = none;
    follow_symlinks = none;
    include_ext = none;
    exclude_ext = none;
  };
  plan = record { order = none; reverse = none; album_max = none };
  upload = record {
    target = none;
    caption = none;
    parse_mode = none;
    concurrency_album = none;
    threads = none;
    pool_size = none;
    resume = none;
    strict_metadata = none;
    image_mode = none;
    video_thumbnail = none;
    duplicate = none;
    state_path_compat = none;
  };
  maintenance = record {
    enabled = none;
    interval_hours = none;
    retention_sent_days = none;
    retention_failed_days = none;
    retention_queue_days = none;
    max_db_mb = none;
    max_upload_rows = none;
    first_run_preview = none;
    vacuum_cooldown_hours = none;
    vacuum_min_reclaim_mb = none;
  };
  mcp = record {
    enabled = none;
    host = none;
    port = none;
    token = none;
    allow_roots = none;
    control_db = none;
    event_retention_hours = none;
    max_concurrent_jobs = none;
    enable_sse = none;
    allowed_origins = none;
  };
}

abbrev file : Overlay
file = record unset {
  telegram = record unset.telegram { api_id = some (pos 12345); api_hash = some (codes "hash") };
  scan = record unset.scan { src = some (codes "/media" ∷ []) };
  upload = record unset.upload {
    target = some (codes "@file");
    state_path_compat = some (codes "old.sqlite");
  };
}

abbrev cli : Overlay
cli = record unset { upload = record unset.upload { target = some (codes "@cli") } }

abbrev settled : Config
settled = record default {
  telegram = record default.telegram { api_id = pos 12345; api_hash = codes "hash" };
  paths = record default.paths { state_path = codes "old.sqlite" };
  scan = record default.scan { src = codes "/media" ∷ [] };
  upload = record default.upload { target = codes "@cli" };
}

layers : resolve_with_file_overlays default (file ∷ []) unset cli ≡ resolved settled
unfolding resolve_with_file_overlays validate merge text_eq one_of to_lower trim_space
layers = refl

merge-Precedence_example : Precedence default (file ∷ unset ∷ cli ∷ [])
merge-Precedence_example = merge-Precedence default (file ∷ unset ∷ cli ∷ [])

validate-IsValid_example : (validate settled ≡ []) ↔ IsValid settled
validate-IsValid_example = validate-IsValid settled

resolve-IsValid_example :
    IsValid settled
    × (settled ≡ merge default (file ∷ unset ∷ cli ∷ []))
    × Precedence default (file ∷ unset ∷ cli ∷ [])
resolve-IsValid_example = resolve-IsValid default (file ∷ []) unset cli settled layers

settled-IsValid : IsValid settled
settled-IsValid = resolve-IsValid_example.0

mixed_case_upload_skips_example :
    (validate (record settled { upload = record settled.upload { duplicate = codes "Upload" } })
      ≡ [])
    × (is_skipped (codes "Upload") (ok true) ≡ true)
unfolding to_lower text_eq
mixed_case_upload_skips_example =
    mixed_case_upload_skips settled settled-IsValid (codes "Upload") refl
      (λ e. ground (arith, (text_eq_iff (codes "Upload") (codes "upload")).1 e))

-- One variable is set, to a text that is no truth value.
abbrev odd_environment : Environment
odd_environment = record {
  lookup = λ key. if text_eq key (codes "TGUP_REVERSE") then some (codes "maybe") else none;
  atoi = λ v. none;
  parse_float = λ v. none;
}

odd_reverse : load_env odd_environment ≡ bad (invalid_bool (codes "TGUP_REVERSE"))
unfolding load_env text_eq to_lower trim_space
odd_reverse = refl

splits_csv : split_csv (codes "a, b,,c ") ≡ codes "a" ∷ codes "b" ∷ codes "c" ∷ []
unfolding split_csv trim_space
splits_csv = refl

load_env-succeeds_example : succeeds (load_env odd_environment) ≡ (
    agree
      (odd_environment.lookup (codes "TGUP_SESSION"))
      (odd_environment.lookup (codes "TGUP_SESSION_PATH"))
    && (agree
          (odd_environment.lookup (codes "TGUP_STATE"))
          (odd_environment.lookup (codes "TGUP_STATE_PATH"))
        && all_readable odd_environment typed_variables))
load_env-succeeds_example = load_env-succeeds odd_environment
