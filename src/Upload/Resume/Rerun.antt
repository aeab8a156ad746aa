-- ===== src/Upload/Resume/Rerun.antt =====
-- A run, and a second one after it (internal/upload/run.go: `Run`).
use tgup.Prelude.{ℕ, ◌≡◌, sym, ap, ◌∙◌, Bool, true, false, List, Option, none, some, arith}
use tgup.Prelude.Text.{codes, text_eq}
use tgup.Errors.{Error, Result, ok, err}
use tgup.Plan.Model as P
use tgup.Upload.Model.{ResolvedTarget, Store, Input, Progress}
use tgup.Upload.Run.{start, summary_of, run_resolved, run, count_files, totals_of}
use tgup.State.Model.{ResumeKey}
use tgup.Prelude.{All, ◌<◌}
use tgup.Upload.Resume.{IsDone, StoreLaws}
use mathlib.Core.Path.{subst}
use tgup.Upload.Resume.Outcome.{FailsOrCompletes, fails, completes}
use tgup.Upload.Model.{Summary}
use tgup.Upload.Resume.Stores.{all_keys, work-Completes}
use tgup.Upload.Resume.Skips.{work-skips}
use tgup.Prelude.{some_inj}

finished :
    {S : Type 0} {store : Store S} {keys : List ResumeKey} {n' : ℕ} {s s' : S}
    → n' ≡ 0
    → FailsOrCompletes store keys 0 s n' s'
    → All (IsDone store s') keys
finished z (fails h) = ground arith
finished z (completes e (keep, all)) = all

module _ {W S : Type 0} (inp : Input W S) (store : Store S) (laws : StoreLaws store)
    (has_store : inp.store ≡ some store) where
  run_resolved-IsDone :
      (canceled : ℕ → Bool) (albums : List P.Album) (s : S) (answer : W × Result ResolvedTarget)
      (p : Progress W S) (r : Summary)
      → run_resolved inp canceled albums s answer ≡ some (p, r, none)
      → r.canceled ≡ false
      → r.failed ≡ 0
      → All (IsDone store p.store) (all_keys albums)
  unfolding run_resolved summary_of start
  run_resolved-IsDone canceled albums s (w, err e) p r eq h z = ground (arith, eq)
  run_resolved-IsDone canceled albums s (w, ok target) p r eq h z =
      let (p1, stopped, eq1, le, c) =
        work-Completes inp store laws has_store (totals_of albums) target canceled 0 albums
          (start w s) in
      let both : ◌≡◌ {A = Option (Progress W S × Summary × Option Error)}
          (some (p1, summary_of (count_files albums) stopped p1, none)) (some (p, r, none)) =
        ground (arith, eq, eq1) in
      let same = some_inj both in
      let alive : stopped ≡ false = ap (λ x. x.1.canceled) same ∙ h in
      let clean : p1.failed_files ≡ 0 = ap (λ x. x.1.failed) same ∙ z in
      subst (λ u. All (IsDone store u) (all_keys albums)) (ap (λ x. x.0.store) same)
        (finished clean (c alive))

  run_true :
      (canceled : ℕ → Bool) (albums : List P.Album) (w : W) (s : S)
      → 0 < count_files albums
      → run true inp canceled albums w s
        ≡ run_resolved inp canceled albums s (inp.services.resolve_target inp.config.target w)
  unfolding run
  run_true canceled albums w s pos = ground arith

  -- A run that was not canceled and in which nothing failed leaves every file of the plan done.
  pub run-IsDone :
      (canceled : ℕ → Bool) (albums : List P.Album) (w : W) (s : S) (p : Progress W S) (r : Summary)
      → 0 < count_files albums
      → run true inp canceled albums w s ≡ some (p, r, none)
      → r.canceled ≡ false
      → r.failed ≡ 0
      → All (IsDone store p.store) (all_keys albums)
  run-IsDone canceled albums w s p r pos eq h z =
      run_resolved-IsDone canceled albums s (inp.services.resolve_target inp.config.target w) p r
        (sym (run_true canceled albums w s pos) ∙ eq) h z

  -- After a run that was not canceled and in which nothing failed, a second run over the same plan and
  -- the store that the first one left, with resuming on and a duplicate policy other than "upload",
  -- sends nothing: it changes the world by the resolution of its target alone and leaves the store as
  -- it is, and every file of the plan counts as skipped. (The store keeps its laws, the plan has a
  -- file, and the second run's target is resolved and its context stays alive.)
  pub rerun_sends_nothing :
      inp.config.resume ≡ true
      → text_eq inp.config.duplicate (codes "upload") ≡ false
      → (canceled : ℕ → Bool) (albums : List P.Album) (w : W) (s : S) (p : Progress W S)
        (r : Summary)
      → 0 < count_files albums
      → run true inp canceled albums w s ≡ some (p, r, none)
      → r.canceled ≡ false
      → r.failed ≡ 0
      → (live : ℕ → Bool) → ((k : ℕ) → live k ≡ false)
      → (w1 w2 : W) (target : ResolvedTarget)
      → inp.services.resolve_target inp.config.target w1 ≡ (w2, ok target)
      → (p' : Progress W S) × (r' : Summary) × (run true inp live albums w1 p.store
          ≡ some (p', r', none))
        × (p'.world ≡ w2)
        × (p'.store ≡ p.store)
        × (r'.skipped ≡ r'.total)
        × (r'.sent ≡ 0)
        × (r'.failed ≡ 0)
  unfolding run_resolved start summary_of
  rerun_sends_nothing resumes skips canceled albums w s p r pos eq h z live alive w1 w2 target t =
      let done = run-IsDone canceled albums w s p r pos eq h z in
      let (p', eq', st) =
        work-skips inp store has_store resumes skips (totals_of albums) target live 0 albums
          (start w2 p.store) alive done in
      (
        p',
        summary_of (count_files albums) false p',
        run_true live albums w1 p.store pos ∙ ground (arith, t, eq'),
        ap (λ x. x.world) st,
        ap (λ x. x.store_of) st,
        ap (λ x. x.counts_of.skipped) st ∙ omega arith,
        ap (λ x. x.counts_of.sent) st,
        ap (λ x. x.counts_of.failed) st,
      )
