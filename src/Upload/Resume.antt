-- ===== src/Upload/Resume.antt =====
-- Resuming (internal/upload/run.go): what a store promises the pipeline, and what a run leaves in it.
pub mod Outcome
pub mod Filter
pub mod Stores
pub mod Skips
pub mod Rerun
pub mod Sqlite
use tgup.Prelude.{
  ℕ, zero, suc, ◌+◌, ◌≡◌, refl, sym, ap, ◌∙◌, Bool, true, false, not, ◌&&◌, ◌||◌, ◌⊎◌, List, [],
  ◌∷◌, ◌++◌, map, length, length-map, Bool-cases, inl, inr, Option, none, some, arith,
  if◌then◌else◌,
}
use tgup.Prelude.Text.{Text, codes, text_eq, join}
use tgup.Errors.{Error, Result, ok, err, error_text}
use tgup.Plan.Model as P
use tgup.State.Model.{MarkSentInput, MarkFailedInput}
use tgup.Media.Model.{VideoMetadata}
use tgup.Upload.Model.{
  AlbumFile, Event, ResolvedTarget, SentMessage, SendResult, Store, Input, Progress, resume_key,
}
use tgup.Upload.Checks.{
  PrecheckResult, is_video, has_violations, probed, probe_all, precheck_album, postcheck_messages,
}
use tgup.Upload.Send.{
  normalized, clean_all, emit_event, emit_if, is_image, measured, compressed, compress_images,
  send_loop, send_files, send_compressed, send_with_retry,
}
use tgup.Upload.Send.Retry.{send_twice, send_loop-returns}
use tgup.Upload.Steps.{
  Totals, to_album_file, sum_sizes, event_of, emit_progress, mark_sent, mark_failed,
  mark_all_failed, mark_all_sent, tail_of, is_skipped, skip_file, filter_done, pending_files,
  thumbnailed, auto_thumbnails, try_thumbnails, thumbnails, set_thumbnail,
}
use tgup.Upload.Album.{
  fail_album, finish_album, settle_album, deliver, checked_album, done_empty, process_pending,
  process_album,
}
use native.Mathlib.Ground.{}
use tgup.Upload.Ledger.{
  Counts, counts, ledger, ledger-emit_event, ledger-emit_if, ledger-emit_progress,
  ledger-thumbnails, ledger-send_with_retry,
}
use tgup.Upload.Counts.{
  handled, handled_albums, sent_by, failed_by, skipped_by, length-keys, counts-fail_album,
}
use tgup.Upload.Keys.{keys-precheck_album}
use tgup.Upload.Steps.{pending_in}
use tgup.State.Model.{ResumeKey}
use tgup.Prelude.{All, ltb, ◌≤◌, ◌<◌, ◌==◌}

-- An item is done.
abbrev pub IsDone : {S : Type 0} → Store S → S → ResumeKey → Type 0
IsDone store s key = store.is_done key s ≡ ok true

-- What the pipeline relies on: a file that is marked sent is done, and no other file loses that.
pub record StoreLaws {S : Type 0} (store : Store S) : Type 0 where
  pub marks : (i : MarkSentInput) (s : S) → IsDone store (store.mark_sent i s).0 i.key
  pub keeps :
      (i : MarkSentInput) (s : S) (key : ResumeKey)
      → IsDone store s key
      → IsDone store (store.mark_sent i s).0 key

module _ {W S : Type 0} (inp : Input W S) (store : Store S) (laws : StoreLaws store)
    (has_store : inp.store ≡ some store) where
  store-mark_sent :
      (i : MarkSentInput) (p : Progress W S)
      → (mark_sent inp i p).store ≡ (store.mark_sent i p.store).0
  unfolding mark_sent
  store-mark_sent i p = ground (arith, has_store)

  mark_sent-keeps :
      (i : MarkSentInput) (p : Progress W S) (key : ResumeKey)
      → IsDone store p.store key
      → IsDone store (mark_sent inp i p).store key
  mark_sent-keeps i p key h = rw (store-mark_sent i p) (laws.keeps i p.store key h)

  mark_sent-marks :
      (i : MarkSentInput) (p : Progress W S) → IsDone store (mark_sent inp i p).store i.key
  mark_sent-marks i p = rw (store-mark_sent i p) (laws.marks i p.store)

  pub mark_all_sent-keeps :
      (target group : Text) (files : List AlbumFile) (ids : List ℕ) (msgs : List SentMessage)
      (p : Progress W S) (key : ResumeKey)
      → IsDone store p.store key
      → IsDone store (mark_all_sent inp target group ids msgs files p).store key
  unfolding mark_all_sent
  mark_all_sent-keeps target group [] ids msgs p key h = h
  mark_all_sent-keeps target group (f ∷ fs) ids msgs p key h =
      mark_all_sent-keeps target group fs (tail_of ids) (tail_of msgs) _ key
        (mark_sent-keeps _ p key h)

  pub mark_all_sent-marks :
      (target group : Text) (files : List AlbumFile) (ids : List ℕ) (msgs : List SentMessage)
      (p : Progress W S)
      → All
          (IsDone store (mark_all_sent inp target group ids msgs files p).store)
          (map resume_key files)
  unfolding mark_all_sent
  mark_all_sent-marks target group [] ids msgs p = tt
  mark_all_sent-marks target group (f ∷ fs) ids msgs p = (
    mark_all_sent-keeps target group fs (tail_of ids) (tail_of msgs) _ (resume_key f)
        (mark_sent-marks _ p),
    mark_all_sent-marks target group fs (tail_of ids) (tail_of msgs) _,
  )
