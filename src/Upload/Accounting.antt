-- ===== src/Upload/Accounting.antt =====
-- The accounting of the pipeline (internal/upload/run.go): every file is counted once.
use tgup.Prelude.{
  ℕ, suc, ◌+◌, ◌≡◌, refl, ap, ◌∙◌, Bool, true, false, ◌&&◌, ◌⊎◌, List, [], ◌∷◌, ◌++◌, map, length,
  length-map, Bool-cases, inl, inr, Option, none, some, arith,
}
use tgup.Prelude.Text.{Text, codes, join}
use tgup.Errors.{Error, Result, ok, err, error_text}
use tgup.Plan.Model as P
use tgup.Upload.Model.{AlbumFile, ResolvedTarget, Store, Input, Progress, resume_key}
use tgup.Upload.Checks.{PrecheckResult, has_violations, precheck_album}
use tgup.Upload.Send.{emit_event, emit_if}
use tgup.Upload.Steps.{
  Totals, to_album_file, event_of, emit_progress, is_skipped, skip_file, filter_done, pending_files,
}
use tgup.Upload.Album.{fail_album, checked_album, done_empty, process_pending, process_album}
use tgup.Upload.Ledger.{Counts, counts, ledger-emit_event, ledger-emit_if, ledger-emit_progress}
use tgup.Upload.Counts.{
  handled, handled_albums, sent_by, failed_by, skipped_by, length-keys, Ends, counts-fail_album,
  counts-deliver,
}
use tgup.Upload.Run.{
  start, summary_of, idle_summary, work, run_resolved, run, count_files, totals_of,
}
use tgup.Upload.Model.{Summary, Config}
use tgup.Upload.Steps.{pending_in}
use tgup.Prelude.{ltb, ◌≤◌, ◌==◌}
use tgup.Errors.{plain, wrapped}
use tgup.Upload.Keys.{keys-precheck_album}

counts_add :
    (c0 c1 c2 : Counts) (k n : ℕ)
    → c1 ≡ skipped_by k c0
    → (c2 ≡ sent_by n c1) ⊎ (c2 ≡ failed_by n c1)
    → (handled c2 ≡ handled c0 + (k + n)) × (handled_albums c2 ≡ handled_albums c0 + 1)
counts_add c0 c1 c2 k n e (inl h) = (
  ap (λ c. handled c) h ∙ ap (λ c. handled (sent_by n c)) e ∙ omega arith,
  ap (λ c. handled_albums c) h ∙ ap (λ c. handled_albums (sent_by n c)) e ∙ omega arith,
)
counts_add c0 c1 c2 k n e (inr h) = (
  ap (λ c. handled c) h ∙ ap (λ c. handled (failed_by n c)) e ∙ omega arith,
  ap (λ c. handled_albums c) h ∙ ap (λ c. handled_albums (failed_by n c)) e ∙ omega arith,
)

module _ {W S : Type 0} where
  counts-checked_album :
      (inp : Input W S) (totals : Totals) (label : Text) (target : ResolvedTarget) (w : W)
      (files : List AlbumFile) (r : PrecheckResult) (p : Progress W S)
      → (p' : Progress W S) × (checked_album inp totals label target (w, files, r) p ≡ some p')
        × Ends (length files) p p'
  unfolding checked_album
  counts-checked_album inp totals label target w files r p =
      let warning =
        event_of (codes "upload.album.precheck_warning") label 0 (join (codes "; ") r.warnings) in
      let warned = emit_if (ltb 0 (length r.warnings)) inp warning (record p { world = w }) in
      let same : counts warned ≡ counts p =
        ap (λ x. x.0)
          (ledger-emit_if (ltb 0 (length r.warnings)) inp warning (record p { world = w })) in
      elim (Bool-cases (has_violations r && inp.config.strict_metadata)) [
        | inl e ↦ (
          fail_album inp label target.raw (codes "precheck: metadata violation")
              (codes "metadata violation") files warned,
          ground (arith, e),
          inr (
              counts-fail_album inp label target.raw (codes "precheck: metadata violation")
                (codes "metadata violation") files warned
              ∙ ap (λ c. failed_by (length files) c) same),
        )
        | inr e ↦
            let (p', eq, ends) = counts-deliver inp totals label target files warned in
            (
              p',
              ground (arith, e, eq),
              elim ends [
                | inl h ↦ inl (h ∙ ap (λ c. sent_by (length files) c) same)
                | inr h ↦ inr (h ∙ ap (λ c. failed_by (length files) c) same)
              ],
            )
      ]

  -- The files that the resume filter leaves out are counted as skipped.
  counts-filter_done :
      (duplicate : Text) (store : Store S) (files : List AlbumFile) (p : Progress W S)
      → (k : ℕ) × (counts (filter_done duplicate store files p).0 ≡ skipped_by k (counts p))
        × (k + length (filter_done duplicate store files p).1 ≡ length files)
  unfolding filter_done
  counts-filter_done duplicate store [] p = (0, ground arith, refl)
  counts-filter_done duplicate store (f ∷ fs) p =
      elim (Bool-cases (is_skipped duplicate (store.is_done (resume_key f) p.store))) [
        | inl e ↦
            let (k, c, l) = counts-filter_done duplicate store fs (skip_file f p) in
            (suc k, ground (arith, e, c), ground (arith, e, l))
        | inr e ↦
            let (k, c, l) = counts-filter_done duplicate store fs p in
            (k, ground (arith, e, c), ground (arith, e, l))
      ]

  counts-pending_in :
      (config : Config) (store : Option (Store S)) (files : List AlbumFile) (p : Progress W S)
      → (k : ℕ) × (counts (pending_in config store files p).0 ≡ skipped_by k (counts p))
        × (k + length (pending_in config store files p).1 ≡ length files)
  unfolding pending_in
  counts-pending_in config none files p = (0, ground arith, ground arith)
  counts-pending_in config (some store) files p = elim (Bool-cases config.resume) [
    | inl e ↦
        let (k, c, l) = counts-filter_done config.duplicate store files p in
        (k, ground (arith, e, c), ground (arith, e, l))
    | inr e ↦ (0, ground (arith, e), ground (arith, e))
  ]

  counts-process_pending :
      (inp : Input W S) (totals : Totals) (label : Text) (target : ResolvedTarget)
      (files : List AlbumFile) (p : Progress W S)
      → (p' : Progress W S) × (process_pending inp totals label target files p ≡ some p')
        × Ends (length files) p p'
  unfolding process_pending done_empty
  counts-process_pending inp totals label target [] p = (
    done_empty inp label p,
    refl,
    inl (
        ap (λ x. x.0)
          (ledger-emit_event inp (event_of (codes "upload.album.done") label 0 (codes ""))
            (record p { sent_albums = p.sent_albums + 1 }))
        ∙ ground arith),
  )
  counts-process_pending inp totals label target (f ∷ fs) p =
      let (w, files, r) = precheck_album inp.services.probe_video (f ∷ fs) p.world in
      let (p', eq, ends) = counts-checked_album inp totals label target w files r p in
      (
        p',
        eq,
        elim ends [
          | inl h ↦ inl (
              h
              ∙ ap (λ n. sent_by n (counts p))
                  (length-keys files (f ∷ fs)
                    (keys-precheck_album inp.services.probe_video (f ∷ fs) p.world)))
          | inr h ↦ inr (
              h
              ∙ ap (λ n. failed_by n (counts p))
                  (length-keys files (f ∷ fs)
                    (keys-precheck_album inp.services.probe_video (f ∷ fs) p.world)))
        ],
      )

  -- An album is processed in a finite number of rounds; each of its files is then counted once more,
  -- as sent, failed or skipped, and the album itself as sent or failed.
  pub process_album-counts :
      (inp : Input W S) (totals : Totals) (target : ResolvedTarget) (album : P.Album)
      (p : Progress W S)
      → (p' : Progress W S) × (process_album inp totals target album p ≡ some p')
        × (handled (counts p') ≡ handled (counts p) + length album.items)
        × (handled_albums (counts p') ≡ handled_albums (counts p) + 1)
  unfolding process_album pending_files
  process_album-counts inp totals target album p =
      let files = map to_album_file album.items in
      let begun =
        emit_event inp (event_of (codes "upload.album.start") album.label (length files) (codes ""))
          p in
      let started = emit_progress inp totals album.label begun in
      let same : counts started ≡ counts p =
        ap (λ x. x.0)
          (ledger-emit_progress inp totals album.label begun ∙ ledger-emit_event inp _ p) in
      let (k, c, l) = counts-pending_in inp.config inp.store files started in
      let (p1, pending) = pending_in inp.config inp.store files started in
      let (p', eq, ends) = counts-process_pending inp totals album.label target pending p1 in
      let (hs, ha) =
        counts_add (counts p) (counts p1) (counts p') k (length pending)
          (c ∙ ap (λ c. skipped_by k c) same) ends in
      (p', eq, hs ∙ ap (λ n. handled (counts p) + n) (l ∙ length-map to_album_file album.items), ha)

  -- The counters after the albums of a worker's loop that looks at a live context.
  pub work-counts :
      (inp : Input W S) (totals : Totals) (target : ResolvedTarget) (canceled : ℕ → Bool) (n : ℕ)
      (albums : List P.Album) (p : Progress W S)
      → (p' : Progress W S) × (stopped : Bool) × (work inp totals target canceled n albums p
          ≡ some (p', stopped))
        × (handled (counts p') ≤ handled (counts p) + count_files albums)
        × (stopped ≡ false → handled (counts p') ≡ handled (counts p) + count_files albums)
  unfolding work count_files
  work-counts inp totals target canceled n [] p =
      (p, canceled n, refl, omega arith, λ h. omega arith)
  work-counts inp totals target canceled n (a ∷ albums) p = elim (Bool-cases (canceled n)) [
    | inl e ↦ (p, true, ground (arith, e), omega arith, λ h. ground arith)
    | inr e ↦
        let (p1, eq1, hs, ha) = process_album-counts inp totals target a p in
        let (p2, stopped, eq2, le, all) =
          work-counts inp totals target canceled (suc n) albums p1 in
        (p2, stopped, ground (arith, e, eq1, eq2), omega arith, λ h. ground (arith, hs, all h))
  ]

  run_resolved-accounts :
      (inp : Input W S) (canceled : ℕ → Bool) (albums : List P.Album) (s : S)
      (answer : W × Result ResolvedTarget)
      → (p : Progress W S) × (r : Summary) × (e : Option Error) × (run_resolved inp canceled albums
            s answer
          ≡ some (p, r, e))
        × (r.total ≡ count_files albums)
        × (r.sent + r.failed + r.skipped ≤ r.total)
        × (r.canceled ≡ false → e ≡ none → r.sent + r.failed + r.skipped ≡ r.total)
  unfolding run_resolved summary_of start
  run_resolved-accounts inp canceled albums s (w, err e) = (
    start w s,
    idle_summary (count_files albums),
    some (wrapped (codes "resolve target: " ++ error_text e) e),
    refl,
    refl,
    omega arith,
    λ h k. ground arith,
  )
  run_resolved-accounts inp canceled albums s (w, ok target) =
      let (p, stopped, eq, le, all) =
        work-counts inp (totals_of albums) target canceled 0 albums (start w s) in
      (
        p,
        summary_of (count_files albums) stopped p,
        none,
        ground (arith, eq),
        refl,
        omega arith,
        λ h k. ground (arith, all h),
      )

  -- A run returns, and whatever happens counts no file twice: what was sent, what failed and what was
  -- skipped make up at most the total. They make up the whole total if the run was not canceled and
  -- had something to send, a transport and a target.
  pub run-accounts :
      (transport : Bool) (inp : Input W S) (canceled : ℕ → Bool) (albums : List P.Album) (w : W)
      (s : S)
      → (p : Progress W S) × (r : Summary) × (e : Option Error) × (run transport inp canceled albums
            w s
          ≡ some (p, r, e))
        × (r.total ≡ count_files albums)
        × (r.sent + r.failed + r.skipped ≤ r.total)
        × (r.canceled ≡ false → e ≡ none → r.sent + r.failed + r.skipped ≡ r.total)
  unfolding run
  run-accounts false inp canceled albums w s = elim (Bool-cases (count_files albums == 0)) [
    | inl z ↦ (
      start w s,
      idle_summary 0,
      none,
      ground (arith, z),
      ground (arith, z),
      omega arith,
      λ h k. refl,
    )
    | inr z ↦ (
      start w s,
      idle_summary (count_files albums),
      some (plain (codes "transport is required")),
      ground (arith, z),
      refl,
      omega arith,
      λ h k. ground arith,
    )
  ]
  run-accounts true inp canceled albums w s = elim (Bool-cases (count_files albums == 0)) [
    | inl z ↦ (
      start w s,
      idle_summary 0,
      none,
      ground (arith, z),
      ground (arith, z),
      omega arith,
      λ h k. refl,
    )
    | inr z ↦
        let (p, r, e, eq, total, le, all) =
          run_resolved-accounts inp canceled albums s
            (inp.services.resolve_target inp.config.target w) in
        (p, r, e, ground (arith, z, eq), total, le, all)
  ]
