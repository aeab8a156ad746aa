-- ===== src/Mcp/RunJob.antt =====
-- The run that a client of the server asks for (internal/mcp/bridge.go: `RunJob`). The payload of an
-- event is the values that it carries, before they are written as text.
use tgup.Prelude.{ℕ, false, Option, none, some, List, [], ◌∷◌, length, if◌then◌else◌}
use tgup.Prelude.Text.{Text}
use tgup.Config.Model.{Config, Overlay}
use tgup.Config.Env.{Environment}
use tgup.Config.Resolve.{resolve}
use tgup.Scan.Model.{Item}
use tgup.Scan.Filter.{is_empty}
use tgup.Scan.Discover.{FileSystem, ScanError, Discovered, found, scan_failed, endless, discover}
use tgup.Plan.Model.{Plan}
use tgup.Plan.Sort.{Sorter}
use tgup.Plan.Build.{build}
use tgup.Mcp.Bridge.{RunSpec, spec_to_overlay, validate_paths, scan_options, plan_options}
use tgup.Mcp.Jobs.{RunResult}

-- The events that the bridge emits.
pub data Emitted : Type 0 where
  config_resolved : List Text → Text → Emitted
  scan_done : ℕ → Emitted
  plan_done : ℕ → ℕ → Emitted

-- What `RunJob` returns: a result, or one of its errors.
pub data Ended : Type 0 where
  ran : RunResult → Ended
  not_resolved : Ended
  not_allowed : Text → Ended
  not_scanned : ScanError → Ended
  not_wired : ℕ → ℕ → Ended
  endless_run : Ended
  panicked_run : Ended

abbrev pub nothing_to_do : RunResult
nothing_to_do = record { sent = 0; failed = 0; skipped = 0; total = 0; canceled = false }

unfoldable pub resolved_event : Config → Emitted
resolved_event cfg = config_resolved cfg.scan.src cfg.upload.target

unfoldable pub run_plan : Config → List Item → Option Plan → List Emitted × Ended
unfolding resolved_event
run_plan cfg items none = (resolved_event cfg ∷ scan_done (length items) ∷ [], panicked_run)
run_plan cfg items (some pl) = (
  resolved_event cfg ∷ scan_done (length items) ∷ plan_done (length pl.albums) (length items) ∷ [],
  not_wired (length pl.albums) (length items),
)

unfoldable pub run_items : Sorter → Config → List Item → List Emitted × Ended
unfolding run_plan is_empty
run_items sorter cfg items =
    if is_empty items
    then (resolved_event cfg ∷ scan_done 0 ∷ [], ran nothing_to_do)
    else run_plan cfg items (build sorter items (plan_options cfg))

unfoldable pub run_found : Sorter → Config → Discovered → List Emitted × Ended
unfolding run_items
run_found sorter cfg (found items) = run_items sorter cfg items
run_found sorter cfg (scan_failed e) = (resolved_event cfg ∷ [], not_scanned e)
run_found sorter cfg endless = (resolved_event cfg ∷ [], endless_run)

module _ (fs : FileSystem) (sorter : Sorter) (fuel : ℕ) (roots : List Text) where
  unfoldable pub run_checked : Config → Option Text → List Emitted × Ended
  unfolding run_found scan_options discover
  run_checked cfg (some path) = ([], not_allowed path)
  run_checked cfg none = run_found sorter cfg (discover fs sorter fuel (scan_options cfg))

  unfoldable pub run_with : Option Config → List Emitted × Ended
  unfolding run_checked validate_paths
  run_with none = ([], not_resolved)
  run_with (some cfg) = run_checked cfg (validate_paths fs roots cfg.scan.src)

  -- `RunJob`, on what loading the files gives: the events it emits, and what it returns.
  unfoldable pub run_job : Option (List Overlay) → Environment → RunSpec → List Emitted × Ended
  unfolding run_with resolve spec_to_overlay
  run_job files env spec = run_with (resolve files env (spec_to_overlay spec))
