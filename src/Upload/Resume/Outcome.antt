-- ===== src/Upload/Resume/Outcome.antt =====
-- What a processed album leaves in the store (internal/upload/run.go).
use tgup.Prelude.{
  ℕ, ◌+◌, ◌≡◌, refl, sym, ap, ◌∙◌, not, ◌&&◌, List, map, length, Bool-cases, inl, inr, some, arith,
}
use tgup.Prelude.Text.{Text, codes, join}
use tgup.Errors.{Result, ok, err, error_text}
use tgup.Upload.Model.{AlbumFile, ResolvedTarget, SendResult, Store, Input, Progress, resume_key}
use tgup.Upload.Checks.{PrecheckResult, has_violations, postcheck_messages}
use tgup.Upload.Send.{clean_all, emit_event, emit_if}
use tgup.Upload.Steps.{Totals, sum_sizes, event_of, emit_progress, mark_all_sent, thumbnails}
use tgup.Upload.Album.{fail_album, finish_album, settle_album, deliver, checked_album}
use tgup.Upload.Ledger.{
  ledger, ledger-emit_event, ledger-emit_if, ledger-emit_progress, ledger-thumbnails,
  ledger-send_with_retry,
}
use tgup.Upload.Counts.{length-keys, counts-fail_album, counts-finish_album}
use tgup.State.Model.{ResumeKey}
use tgup.Prelude.{All, ltb, ◌<◌}
use tgup.Upload.Resume.{IsDone, StoreLaws, mark_all_sent-keeps, mark_all_sent-marks}
use mathlib.Core.Path.{subst}

module _ {S : Type 0} (store : Store S) where
  -- From the store `s` to the store `s'` nothing that was done is undone, and the keys are done.
  abbrev pub Completes : List ResumeKey → S → S → Type 0
  Completes keys s s' =
      ((key : ResumeKey) → IsDone store s key → IsDone store s' key) × All (IsDone store s') keys

  -- Either more files failed than before, or as many and the keys are done.
  pub data FailsOrCompletes (keys : List ResumeKey) (n : ℕ) (s : S) (n' : ℕ) (s' : S) : Type 0 where
    fails : n < n' → FailsOrCompletes keys n s n' s'
    completes : n' ≡ n → Completes keys s s' → FailsOrCompletes keys n s n' s'

  pub shift :
      {keys keys' : List ResumeKey} {n m n' : ℕ} {s t s' : S}
      → keys ≡ keys'
      → n ≡ m
      → s ≡ t
      → FailsOrCompletes keys n s n' s'
      → FailsOrCompletes keys' m t n' s'
  shift {keys} {keys'} {n} {m} {n'} {s} {t} {s'} e f g h =
      subst (λ ks. FailsOrCompletes ks m t n' s') e
        (subst (λ k. FailsOrCompletes keys k t n' s') f
          (subst (λ u. FailsOrCompletes keys n u n' s') g h))

module _ {W S : Type 0} (inp : Input W S) (store : Store S) (laws : StoreLaws store)
    (has_store : inp.store ≡ some store) where
  finish_album-Completes :
      (totals : Totals) (label target : Text) (files : List AlbumFile) (sent : SendResult)
      (p : Progress W S)
      → Completes store
          (map resume_key files)
          p.store
          (finish_album inp totals label target files sent p).store
  unfolding finish_album
  finish_album-Completes totals label target files sent p =
      let checked = postcheck_messages inp.services.format_seconds sent (length files) in
      let warning =
        event_of (codes "upload.album.postcheck_warning") label 0
          (join (codes "; ") checked.issues) in
      let warned = emit_if (not checked.ok_result) inp warning p in
      let marked =
        mark_all_sent inp target sent.group_id sent.message_ids sent.messages files warned in
      let counted = record marked {
        sent_files = marked.sent_files + length files;
        sent_bytes = marked.sent_bytes + sum_sizes files;
        sent_albums = marked.sent_albums + 1;
      } in
      let done = event_of (codes "upload.album.done") label (length files) (codes "") in
      let late : (emit_progress inp totals (codes "") (emit_event inp done counted)).store
          ≡ marked.store =
        ap (λ x. x.1)
          (ledger-emit_progress inp totals (codes "") (emit_event inp done counted)
            ∙ ledger-emit_event inp done counted) in
      let early : warned.store ≡ p.store =
        ap (λ x. x.1) (ledger-emit_if (not checked.ok_result) inp warning p) in
      (
        λ key h.
            subst (λ s. IsDone store s key) (sym late)
              (mark_all_sent-keeps inp store laws has_store target sent.group_id files
                sent.message_ids sent.messages warned key
                (subst (λ s. IsDone store s key) (sym early) h)),
        subst (λ s. All (IsDone store s) (map resume_key files)) (sym late)
            (mark_all_sent-marks inp store laws has_store target sent.group_id files
              sent.message_ids sent.messages warned),
      )

  settle_album-Completes :
      (totals : Totals) (label : Text) (target : ResolvedTarget) (files : List AlbumFile)
      (answer : Result SendResult) (p : Progress W S)
      → 0 < length files
      → FailsOrCompletes store
          (map resume_key files)
          p.failed_files
          p.store
          (settle_album inp totals label target files answer p).failed_files
          (settle_album inp totals label target files answer p).store
  unfolding settle_album
  settle_album-Completes totals label target files (ok sent) p h =
      completes (ap (λ c. c.failed) (counts-finish_album inp totals label target.raw files sent p))
        (finish_album-Completes totals label target.raw files sent p)
  settle_album-Completes totals label target files (err e) p h =
      let settled = fail_album inp label target.raw (error_text e) (error_text e) files p in
      let c : settled.failed_files ≡ p.failed_files + length files =
        ap (λ c. c.failed)
          (counts-fail_album inp label target.raw (error_text e) (error_text e) files p) in
      fails (omega arith)

  deliver-Completes :
      (totals : Totals) (label : Text) (target : ResolvedTarget) (files : List AlbumFile)
      (p : Progress W S)
      → 0 < length files
      → (p' : Progress W S) × (deliver inp totals label target files p ≡ some p')
        × FailsOrCompletes store
            (map resume_key files)
            p.failed_files
            p.store
            p'.failed_files
            p'.store
  unfolding deliver
  deliver-Completes totals label target files p h =
      let (kept, keys) = ledger-thumbnails inp label files p in
      let ((p2, answer), sent, same) =
        ledger-send_with_retry inp (thumbnails inp label files p).1 target
          (thumbnails inp label files p).0 in
      let settled =
        settle_album inp totals label target (thumbnails inp label files p).1 answer p2 in
      let len = length-keys (thumbnails inp label files p).1 files keys in
      (
        record settled { world = clean_all (thumbnails inp label files p).2 settled.world },
        ground (arith, sent),
        shift store keys (ap (λ x. x.0.failed) (same ∙ kept)) (ap (λ x. x.1) (same ∙ kept)) (
            settle_album-Completes totals label target (thumbnails inp label files p).1 answer p2
              (omega arith)),
      )

  pub checked_album-Completes :
      (totals : Totals) (label : Text) (target : ResolvedTarget) (w : W) (files : List AlbumFile)
      (r : PrecheckResult) (p : Progress W S)
      → 0 < length files
      → (p' : Progress W S) × (checked_album inp totals label target (w, files, r) p ≡ some p')
        × FailsOrCompletes store
            (map resume_key files)
            p.failed_files
            p.store
            p'.failed_files
            p'.store
  unfolding checked_album
  checked_album-Completes totals label target w files r p h =
      let warning =
        event_of (codes "upload.album.precheck_warning") label 0 (join (codes "; ") r.warnings) in
      let warned = emit_if (ltb 0 (length r.warnings)) inp warning (record p { world = w }) in
      let same : ledger warned ≡ ledger p =
        ledger-emit_if (ltb 0 (length r.warnings)) inp warning (record p { world = w }) in
      elim (Bool-cases (has_violations r && inp.config.strict_metadata)) [
        | inl e ↦
            let failed =
              fail_album inp label target.raw (codes "precheck: metadata violation")
                (codes "metadata violation") files warned in
            let c : failed.failed_files ≡ warned.failed_files + length files =
              ap (λ c. c.failed)
                (counts-fail_album inp label target.raw (codes "precheck: metadata violation")
                  (codes "metadata violation") files warned) in
            let d : warned.failed_files ≡ p.failed_files = ap (λ x. x.0.failed) same in
            (failed, ground (arith, e), fails (omega arith))
        | inr e ↦
            let (p', eq, ends) = deliver-Completes totals label target files warned h in
            (
              p',
              ground (arith, e, eq),
              shift store refl (ap (λ x. x.0.failed) same) (ap (λ x. x.1) same) ends,
            )
      ]
