-- ===== src/Mcp/Tests.antt =====
-- Tests of the event store, and of dry runs and runs through the server.
use mathlib.Core.List.{append-nil}
use tgup.Prelude.{
  sym, ap, ◌∙◌, inl, inr, Bool-cases, ◌≡◌, refl, ◌∷◌, [], length, ltb, true, false, none, some,
}
use tgup.Prelude.Text.{Text, codes, text_eq, text_eq_iff, has_prefix}
use tgup.Prelude.Int.{pos}
use tgup.Config.Model.{Overlay}
use tgup.Config.Env.{Environment}
use tgup.Plan.Insertion.{insertion, sorter}
use tgup.Scan.Sample.{disk}
use tgup.Mcp.Bridge.{RunSpec, DryRunOutput, spec_to_overlay, dry_run, previewed}
use tgup.Mcp.Guard.{IsGuarded, dry_run-IsGuarded}
use tgup.Config.Resolve.{resolve}
use tgup.Mcp.Roots.{PathLaws, names_of}
use tgup.Mcp.RunJob.{not_wired, run_job}
use tgup.Mcp.Agreement.{Agrees, target_of, run_job-Agrees}
use tgup.Mcp.Events.{Event, EventStore, works, append, max_seq, list}
use tgup.Prelude.{arith}
use tgup.Mcp.Pages.{IsNumbered, append-IsNumbered, events_after, list_pages}

abbrev event : Text → Text → Event
event job kind = record {
  seq = 0;
  job_id = job;
  kind = kind;
  payload = none;
  terminal = false;
  created_at = 5;
}

abbrev empty : EventStore
empty = record { rows = []; next_id = 1; subscriptions = [] }

empty-IsNumbered : IsNumbered empty
empty-IsNumbered = record { ids = tt; below = tt; seqs = λ job. tt }

abbrev one : EventStore
one = (append works (event (codes "a") (codes "job.queued")) empty).0

abbrev three : EventStore
three =
    (append works (event (codes "a") (codes "job.running"))
      (append works (event (codes "b") (codes "job.queued")) one).0).0

one-IsNumbered : IsNumbered one
one-IsNumbered =
    append-IsNumbered works (event (codes "a") (codes "job.queued")) empty empty-IsNumbered

three-IsNumbered : IsNumbered three
three-IsNumbered =
    append-IsNumbered works (event (codes "a") (codes "job.running"))
      (append works (event (codes "b") (codes "job.queued")) one).0
      (append-IsNumbered works (event (codes "b") (codes "job.queued")) one one-IsNumbered)

list_pages_example :
    (events_after (codes "a") 0 three
      ≡ record (event (codes "a") (codes "job.queued")) { seq = 1 }
        ∷ events_after (codes "a") 1 three)
    × (true ≡ ltb 0 (length (events_after (codes "a") 1 three)))
unfolding list append max_seq text_eq
list_pages_example =
    list_pages three (codes "a") 0 (pos 1)
      (record (event (codes "a") (codes "job.queued")) { seq = 1 } ∷ []) true []
      (record (event (codes "a") (codes "job.queued")) { seq = 1 }) three-IsNumbered refl refl

-- A client asks for a dry run over one directory, which is the allowed root.
abbrev request : RunSpec
request = record {
  src = codes "/m" ∷ [];
  recursive = some true;
  follow_symlinks = some true;
  include_ext = [];
  exclude_ext = [];
  order = [];
  reverse = none;
  album_max = none;
  target = codes "me";
  caption = [];
  parse_mode = [];
  concurrency = none;
  resume = none;
  strict_metadata = none;
  image_mode = [];
  video_thumbnail = [];
  duplicate = [];
  config_path = [];
}

abbrev account : Overlay
account = record (spec_to_overlay request) {
  telegram = record {
    api_id = some (pos 12345);
    api_hash = some (codes "hash");
    session_path = none;
    session_path_legacy = none;
  };
}

abbrev no_variables : Environment
no_variables = record { lookup = λ key. none; atoi = λ v. none; parse_float = λ v. none }

abbrev one_picture : DryRunOutput
one_picture = record {
  sources = codes "/m" ∷ [];
  items = 1;
  albums = 1;
  order = codes "mtime";
  reverse = false;
  album_max = pos 10;
  preview = record { label = codes "m"; count = 1; items = codes "/m/a.jpg" ∷ [] } ∷ [];
}

shows_picture :
    dry_run disk sorter 2 (codes "/m" ∷ []) true (some (account ∷ [])) no_variables request
    ≡ previewed one_picture
unfolding dry_run tgup.Config.Validate.validate tgup.Config.Merge.merge text_eq
    tgup.Prelude.Text.to_lower tgup.Prelude.Text.trim_space tgup.Prelude.Text.has_prefix
    tgup.Scan.Filter.text_in tgup.Scan.Filter.ext_allowed tgup.Scan.Filter.detect_kind
    tgup.Plan.Build.build insertion tgup.Plan.Group.group tgup.Plan.Sort.sort_items
    tgup.Plan.Group.add_item tgup.Plan.Split.split tgup.Plan.Build.build_label
    tgup.Plan.Group.key_of
shows_picture = refl

disk-PathLaws : PathLaws disk
unfolding has_prefix
disk-PathLaws = record {
  abs_rooted = λ path abs e. elim (Bool-cases (has_prefix path (codes "/"))) [
    | inl rooted ↦ let same : path ≡ abs = ground arith in rw (← same) rooted
    | inr other ↦ absurd (ground arith)
  ];
  links_rooted = λ path real rooted e. elim (Bool-cases (text_eq path (codes "/m/up"))) [
    | inl link ↦ let same : codes "/m" ≡ real = ground arith in rw (← same) refl
    | inr other ↦ let same : path ≡ real = ground arith in rw (← same) rooted
  ];
  rel_names = λ base target rel b t e. elim (Bool-cases (text_eq base target)) [
    | inl equal ↦
        let same = (text_eq_iff base target).0 equal in
        let dot : codes "." ≡ rel = ground arith in
        (
          names_of base,
          [],
          [],
          sym (append-nil (names_of base)),
          ap names_of (sym same) ∙ sym (append-nil (names_of base)),
          sym dot,
        )
    | inr other ↦ absurd (ground arith)
  ];
}

dry_run-IsGuarded_example :
    IsGuarded disk sorter 2 (codes "/m" ∷ []) (some (account ∷ [])) no_variables request one_picture
dry_run-IsGuarded_example =
    dry_run-IsGuarded disk sorter 2 (codes "/m" ∷ []) true (some (account ∷ [])) no_variables
      request disk-PathLaws one_picture shows_picture

runs_to_the_plan :
    (run_job disk sorter 2 (codes "/m" ∷ []) (some (account ∷ [])) no_variables request).1
    ≡ not_wired 1 1
unfolding run_job tgup.Config.Validate.validate tgup.Config.Merge.merge text_eq
    tgup.Prelude.Text.to_lower tgup.Prelude.Text.trim_space tgup.Prelude.Text.has_prefix
    tgup.Scan.Filter.text_in tgup.Scan.Filter.ext_allowed tgup.Scan.Filter.detect_kind
    tgup.Plan.Build.build insertion tgup.Plan.Group.group tgup.Plan.Sort.sort_items
    tgup.Plan.Group.add_item tgup.Plan.Split.split tgup.Plan.Build.build_label
    tgup.Plan.Group.key_of tgup.Mcp.Bridge.plan_options
runs_to_the_plan = refl

run_job-Agrees_example :
    Agrees
      (run_job disk sorter 2 (codes "/m" ∷ []) (some (account ∷ [])) no_variables request)
      (target_of (resolve (some (account ∷ [])) no_variables (spec_to_overlay request)))
      (dry_run disk sorter 2 (codes "/m" ∷ []) true (some (account ∷ [])) no_variables request)
run_job-Agrees_example =
    run_job-Agrees disk sorter 2 (codes "/m" ∷ []) true (some (account ∷ [])) no_variables request
