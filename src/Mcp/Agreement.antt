-- ===== src/Mcp/Agreement.antt =====
-- A run through the server beside the dry run of the same request (internal/mcp/bridge.go: `RunJob`
-- and `DryRun`).
use tgup.Prelude.{ℕ, zero, suc, ◌≡◌, refl, Bool, Option, none, some, List, [], ◌∷◌}
use tgup.Prelude.Text.{Text}
use tgup.Config.Model.{Config, Overlay}
use tgup.Config.Env.{Environment}
use tgup.Config.Resolve.{resolve}
use tgup.Scan.Model.{Item}
use tgup.Scan.Filter.{is_empty}
use tgup.Scan.Discover.{FileSystem, Discovered, found, scan_failed, endless, discover}
use tgup.Plan.Model.{Plan}
use tgup.Plan.Sort.{Sorter}
use tgup.Plan.Build.{build}
use tgup.Mcp.Bridge.{
  RunSpec, DryRun, previewed, no_config, outside, scan_error, endless_scan, panicked,
  spec_to_overlay, validate_paths, output, scan_options, plan_options, plan_found, scan_checked,
  with_config, dry_run,
}
use tgup.Mcp.RunJob.{
  Emitted, config_resolved, scan_done, plan_done, Ended, ran, not_resolved, not_allowed,
  not_scanned, not_wired, endless_run, panicked_run, nothing_to_do, resolved_event, run_plan,
  run_items, run_found, run_checked, run_with, run_job,
}

-- What a run emits and returns whose dry run shows `items` items in `albums` albums.
abbrev pub job_of : List Text → Text → ℕ → ℕ → List Emitted × Ended
job_of sources target zero albums =
    (config_resolved sources target ∷ scan_done 0 ∷ [], ran nothing_to_do)
job_of sources target (suc n) albums = (
  config_resolved sources target ∷ scan_done (suc n) ∷ plan_done albums (suc n) ∷ [],
  not_wired albums (suc n),
)

-- A run beside the dry run of the same request.
abbrev pub Agrees : List Emitted × Ended → Text → DryRun → Type 0
Agrees job target (previewed out) = job ≡ job_of out.sources target out.items out.albums
Agrees job target no_config = job ≡ ([], not_resolved)
Agrees job target (outside path) = job ≡ ([], not_allowed path)
Agrees job target (scan_error e) = job.1 ≡ not_scanned e
Agrees job target endless_scan = job.1 ≡ endless_run
Agrees job target panicked = job.1 ≡ panicked_run

-- The target of a request's run; none where its settings do not resolve.
unfoldable pub target_of : Option Config → Text
target_of none = []
target_of (some cfg) = cfg.upload.target

module _ (fs : FileSystem) (sorter : Sorter) (fuel : ℕ) (roots : List Text) (show : Bool) where
  plan-Agrees :
      (cfg : Config) (item : Item) (items : List Item) (pl : Option Plan)
      → Agrees
          (run_plan cfg (item ∷ items) pl)
          cfg.upload.target
          (output show cfg (item ∷ items) pl)
  unfolding run_plan output resolved_event
  plan-Agrees cfg item items none = refl
  plan-Agrees cfg item items (some pl) = refl

  found-Agrees :
      (cfg : Config) (x : Discovered)
      → Agrees (run_found sorter cfg x) cfg.upload.target (plan_found sorter show cfg x)
  unfolding run_found run_items plan_found resolved_event output is_empty build
  found-Agrees cfg (found []) = refl
  found-Agrees cfg (found (item ∷ items)) =
      plan-Agrees cfg item items (build sorter (item ∷ items) (plan_options cfg))
  found-Agrees cfg (scan_failed e) = refl
  found-Agrees cfg endless = refl

  checked-Agrees :
      (cfg : Config) (first : Option Text)
      → Agrees
          (run_checked fs sorter fuel roots cfg first)
          cfg.upload.target
          (scan_checked fs sorter fuel roots show cfg first)
  unfolding run_checked scan_checked
  checked-Agrees cfg none = found-Agrees cfg (discover fs sorter fuel (scan_options cfg))
  checked-Agrees cfg (some path) = refl

  config-Agrees :
      (cfg : Option Config)
      → Agrees
          (run_with fs sorter fuel roots cfg)
          (target_of cfg)
          (with_config fs sorter fuel roots show cfg)
  unfolding run_with with_config target_of
  config-Agrees none = refl
  config-Agrees (some cfg) = checked-Agrees cfg (validate_paths fs roots cfg.scan.src)

  -- A run through the server does what the dry run of its request says: it ends with the same error
  -- where that has one. Where that shows items in albums, the run emits the resolved settings and
  -- these numbers, and then returns the error that an upload is not wired; where that shows no
  -- items, it emits the settings and the number, and returns a result of zeros.
  pub run_job-Agrees :
      (files : Option (List Overlay)) (env : Environment) (spec : RunSpec)
      → Agrees
          (run_job fs sorter fuel roots files env spec)
          (target_of (resolve files env (spec_to_overlay spec)))
          (dry_run fs sorter fuel roots show files env spec)
  unfolding run_job dry_run
  run_job-Agrees files env spec = config-Agrees (resolve files env (spec_to_overlay spec))
