-- ===== src/Config/Resolve.antt =====
-- The resolution of the settings from all layers (internal/config/loader.go: `Resolve`). Finding
-- and parsing the files is a parameter; it may fail.
use tgup.Prelude.{Option, none, some, List}
use tgup.Config.Model.{Config, Overlay}
use tgup.Config.Merge.{Resolved, resolved, rejected, resolve_with_file_overlays, default}
use tgup.Config.Env.{Environment, Loaded, loaded, bad, load_env}

unfoldable pub config_of : Resolved → Option Config
config_of (resolved cfg) = some cfg
config_of (rejected errors) = none

unfoldable pub with_env : List Overlay → Loaded Overlay → Overlay → Option Config
unfolding config_of resolve_with_file_overlays
with_env files (bad e) cli = none
with_env files (loaded env) cli = config_of (resolve_with_file_overlays default files env cli)

-- `resolve`, on what loading the files gives; `none` is an error.
unfoldable pub resolve : Option (List Overlay) → Environment → Overlay → Option Config
unfolding with_env load_env
resolve none env cli = none
resolve (some files) env cli = with_env files (load_env env) cli
