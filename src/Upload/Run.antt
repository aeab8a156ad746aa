-- ===== src/Upload/Run.antt =====
-- The whole pipeline (internal/upload/run.go: `Run`). The albums of the channel `work` are taken in
-- its order by the workers; an interleaving is modelled by the order in which the albums are
-- processed one after the other. `canceled n` is what `ctx.Err() != nil` answers the n-th time.
use tgup.Prelude.{
  ℕ, suc, ◌+◌, Bool, true, false, List, [], ◌∷◌, length, Option, none, some, ◌==◌, if◌then◌else◌,
}
use tgup.Prelude.Text.{codes}
use tgup.Errors.{Error, Result, ok, err, plain, wrapped, error_text}
use tgup.Plan.Model as P
use tgup.Scan.Model as S
use tgup.Upload.Model.{ResolvedTarget, Input, Progress, Summary}
use tgup.Upload.Steps.{Totals}
use tgup.Upload.Album.{process_album}
use tgup.Prelude.{◌++◌}

unfoldable pub count_files : List P.Album → ℕ
count_files [] = 0
count_files (a ∷ albums) = length a.items + count_files albums

unfoldable pub item_bytes : List S.Item → ℕ
item_bytes [] = 0
item_bytes (i ∷ items) = i.size + item_bytes items

unfoldable pub count_bytes : List P.Album → ℕ
unfolding item_bytes
count_bytes [] = 0
count_bytes (a ∷ albums) = item_bytes a.items + count_bytes albums

unfoldable pub totals_of : List P.Album → Totals
unfolding count_files count_bytes
totals_of albums = record {
  files = count_files albums;
  bytes = count_bytes albums;
  albums = length albums;
}

unfoldable pub start : {W S : Type 0} → W → S → Progress W S
start w s = record {
  world = w;
  store = s;
  sent_files = 0;
  failed_files = 0;
  skipped_files = 0;
  sent_bytes = 0;
  sent_albums = 0;
  failed_albums = 0;
  events = [];
  snapshots = [];
}

unfoldable pub summary_of : {W S : Type 0} → ℕ → Bool → Progress W S → Summary
summary_of total canceled p = record {
  total = total;
  sent = p.sent_files;
  skipped = p.skipped_files;
  failed = p.failed_files;
  canceled = canceled;
}

-- The summary of a run that sends nothing.
abbrev pub idle_summary : ℕ → Summary
idle_summary total = record { total = total; sent = 0; skipped = 0; failed = 0; canceled = false }

module _ {W S : Type 0} where
  -- The worker's loop over the albums that are left, with the number of looks at the context:
  -- what it did, and whether it stopped at a canceled context.
  unfoldable pub work :
      Input W S
      → Totals
      → ResolvedTarget
      → (ℕ → Bool)
      → ℕ
      → List P.Album
      → Progress W S
      → Option (Progress W S × Bool)
  work inp totals target canceled n [] p = some (p, canceled n)
  work inp totals target canceled n (a ∷ albums) p = elim (canceled n) [
    | true ↦ some (p, true)
    | false ↦ elim (process_album inp totals target a p) [
      | none ↦ none
      | some p' ↦ work inp totals target canceled (suc n) albums p'
    ]
  ]

  unfoldable pub run_resolved :
      Input W S
      → (ℕ → Bool)
      → List P.Album
      → S
      → W × Result ResolvedTarget
      → Option (Progress W S × Summary × Option Error)
  unfolding work totals_of start summary_of
  run_resolved inp canceled albums s (w, err e) = some (
    start w s,
    idle_summary (count_files albums),
    some (wrapped (codes "resolve target: " ++ error_text e) e),
  )
  run_resolved inp canceled albums s (w, ok target) =
      elim (work inp (totals_of albums) target canceled 0 albums (start w s)) [
        | none ↦ none
        | some (p, stopped) ↦ some (p, summary_of (count_files albums) stopped p, none)
      ]

  -- `Run`; `transport` says whether there is a transport.
  unfoldable pub run :
      Bool
      → Input W S
      → (ℕ → Bool)
      → List P.Album
      → W
      → S
      → Option (Progress W S × Summary × Option Error)
  unfolding count_files start run_resolved
  run transport inp canceled albums w s =
      if count_files albums == 0 then some (start w s, idle_summary 0, none) else elim transport [
        | false ↦ some (
          start w s,
          idle_summary (count_files albums),
          some (plain (codes "transport is required")),
        )
        | true ↦
            run_resolved inp canceled albums s (inp.services.resolve_target inp.config.target w)
      ]
