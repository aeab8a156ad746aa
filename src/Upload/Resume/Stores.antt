-- ===== src/Upload/Resume/Stores.antt =====
-- What a run leaves in the store (internal/upload/run.go: `processAlbum` and `Run`).
use tgup.Prelude.{
  ℕ, suc, ◌+◌, ◌≡◌, refl, sym, ap, ◌∙◌, Bool, true, false, List, [], ◌∷◌, ◌++◌, map, length,
  Bool-cases, inl, inr, some, arith,
}
use tgup.Prelude.Text.{Text, codes}
use tgup.Plan.Model as P
use tgup.Upload.Model.{AlbumFile, ResolvedTarget, Store, Input, Progress, resume_key}
use tgup.Upload.Checks.{precheck_album}
use tgup.Upload.Send.{emit_event}
use tgup.Upload.Steps.{Totals, to_album_file, event_of, emit_progress, pending_files}
use tgup.Upload.Album.{done_empty, process_pending, process_album}
use tgup.Upload.Ledger.{ledger, ledger-emit_event, ledger-emit_progress}
use tgup.Upload.Counts.{length-keys}
use tgup.Upload.Keys.{keys-precheck_album}
use tgup.Upload.Steps.{pending_in}
use tgup.Upload.Run.{work}
use tgup.State.Model.{ResumeKey}
use tgup.Prelude.{All-append, All-imp, All, ◌≤◌}
use tgup.Upload.Resume.{IsDone, StoreLaws}
use mathlib.Core.Path.{subst}
use tgup.Upload.Resume.Outcome.{FailsOrCompletes, fails, completes, shift, checked_album-Completes}
use tgup.Upload.Resume.Filter.{pending_in-covers}

unfoldable pub album_keys : P.Album → List ResumeKey
unfolding resume_key to_album_file
album_keys album = map resume_key (map to_album_file album.items)

unfoldable pub all_keys : List P.Album → List ResumeKey
unfolding album_keys
all_keys [] = []
all_keys (a ∷ albums) = album_keys a ++ all_keys albums

at_least :
    {S : Type 0} {store : Store S} {keys : List ResumeKey} {n n' : ℕ} {s s' : S}
    → FailsOrCompletes store keys n s n' s'
    → n ≤ n'
at_least (fails h) = omega arith
at_least (completes e c) = omega arith

cover :
    {S : Type 0} {store : Store S} {keys keys' : List ResumeKey} {n n' : ℕ} {s s' : S}
    → (((key : ResumeKey) → IsDone store s key → IsDone store s' key)
        → All (IsDone store s') keys
        → All (IsDone store s') keys')
    → FailsOrCompletes store keys n s n' s'
    → FailsOrCompletes store keys' n s n' s'
cover f (fails h) = fails h
cover f (completes e (keep, all)) = completes e (keep, f keep all)

-- One run of albums after another.
chain :
    {S : Type 0} {store : Store S} {xs ys : List ResumeKey} {n n1 n2 : ℕ} {s s1 s2 : S}
    → FailsOrCompletes store xs n s n1 s1
    → FailsOrCompletes store ys n1 s1 n2 s2
    → FailsOrCompletes store (xs ++ ys) n s n2 s2
chain (fails h) (fails k) = fails (omega arith)
chain (fails h) (completes e c) = fails (omega arith)
chain (completes e c) (fails k) = fails (omega arith)
chain {S} {store} {xs} {ys} {s2 = s2} (completes e (keep, all)) (completes e' (keep', all')) =
    completes (e' ∙ e) (
      λ key h. keep' key (keep key h),
      All-append (IsDone store s2) xs ys (All-imp (IsDone store _) (IsDone store s2) keep' xs all)
          all',
    )

module _ {W S : Type 0} (inp : Input W S) (store : Store S) (laws : StoreLaws store)
    (has_store : inp.store ≡ some store) where
  process_pending-Completes :
      (totals : Totals) (label : Text) (target : ResolvedTarget) (files : List AlbumFile)
      (p : Progress W S)
      → (p' : Progress W S) × (process_pending inp totals label target files p ≡ some p')
        × FailsOrCompletes store
            (map resume_key files)
            p.failed_files
            p.store
            p'.failed_files
            p'.store
  unfolding process_pending done_empty
  process_pending-Completes totals label target [] p =
      let same =
        ledger-emit_event inp (event_of (codes "upload.album.done") label 0 (codes ""))
          (record p { sent_albums = p.sent_albums + 1 }) in
      (
        done_empty inp label p,
        refl,
        completes (ap (λ x. x.0.failed) same)
            (λ key h. subst (λ s. IsDone store s key) (sym (ap (λ x. x.1) same)) h, tt),
      )
  process_pending-Completes totals label target (f ∷ fs) p =
      let (w, files, r) = precheck_album inp.services.probe_video (f ∷ fs) p.world in
      let keys = keys-precheck_album inp.services.probe_video (f ∷ fs) p.world in
      let len = length-keys files (f ∷ fs) keys in
      let (p', eq, c) =
        checked_album-Completes inp store laws has_store totals label target w files r p
          (omega arith) in
      (p', eq, shift store keys refl refl c)

  -- An album is processed in a finite number of rounds, and either more files have failed, or each
  -- of its files is done in the store, and what was done before is done still.
  process_album-Completes :
      (totals : Totals) (target : ResolvedTarget) (album : P.Album) (p : Progress W S)
      → (p' : Progress W S) × (process_album inp totals target album p ≡ some p')
        × FailsOrCompletes store (album_keys album) p.failed_files p.store p'.failed_files p'.store
  unfolding process_album pending_files album_keys
  process_album-Completes totals target album p =
      let files = map to_album_file album.items in
      let begun =
        emit_event inp (event_of (codes "upload.album.start") album.label (length files) (codes ""))
          p in
      let started = emit_progress inp totals album.label begun in
      let same : ledger started ≡ ledger p =
        ledger-emit_progress inp totals album.label begun ∙ ledger-emit_event inp _ p in
      let (st, fl, covers) = pending_in-covers store inp.config files started in
      let pending = pending_in inp.config (some store) files started in
      let (p', eq, c) = process_pending-Completes totals album.label target pending.1 pending.0 in
      (
        p',
        ground (arith, has_store, eq),
        shift store refl (ap (λ x. x.0.failed) same) (ap (λ x. x.1) same)
            (cover (λ keep all. covers p'.store keep all) (shift store refl fl st c)),
      )

  pub work-Completes :
      (totals : Totals) (target : ResolvedTarget) (canceled : ℕ → Bool) (n : ℕ)
      (albums : List P.Album) (p : Progress W S)
      → (p' : Progress W S) × (stopped : Bool) × (work inp totals target canceled n albums p
          ≡ some (p', stopped))
        × (p.failed_files ≤ p'.failed_files)
        × (stopped ≡ false
            → FailsOrCompletes store
                (all_keys albums)
                p.failed_files
                p.store
                p'.failed_files
                p'.store)
  unfolding work all_keys
  work-Completes totals target canceled n [] p =
      (p, canceled n, refl, omega arith, λ h. completes refl (λ key k. k, tt))
  work-Completes totals target canceled n (a ∷ albums) p = elim (Bool-cases (canceled n)) [
    | inl e ↦ (p, true, ground (arith, e), omega arith, λ h. ground arith)
    | inr e ↦
        let (p1, eq1, c1) = process_album-Completes totals target a p in
        let (p2, stopped, eq2, le, c2) = work-Completes totals target canceled (suc n) albums p1 in
        let first = at_least c1 in
        (p2, stopped, ground (arith, e, eq1, eq2), omega arith, λ h. chain c1 (c2 h))
  ]
