-- ===== src/Upload/Counts.antt =====
-- What an album does to the counters of a run (internal/upload/run.go).
use tgup.Prelude.{
  ℕ, ◌+◌, ◌≡◌, refl, sym, ap, ◌∙◌, not, ◌⊎◌, List, [], ◌∷◌, map, length, length-map, inl, inr, some,
  arith,
}
use tgup.Prelude.Text.{Text, codes, join}
use tgup.Errors.{Result, ok, err, error_text}
use tgup.State.Model.{MarkSentInput, MarkFailedInput}
use tgup.Upload.Model.{
  AlbumFile, ResolvedTarget, SentMessage, SendResult, Input, Progress, resume_key,
}
use tgup.Upload.Checks.{postcheck_messages}
use tgup.Upload.Send.{clean_all, emit_event, emit_if}
use tgup.Upload.Steps.{
  Totals, sum_sizes, event_of, mark_sent, mark_failed, mark_all_failed, mark_all_sent, tail_of,
  thumbnails,
}
use tgup.Upload.Album.{fail_album, finish_album, settle_album, deliver}
use tgup.Upload.Ledger.{
  Counts, counts, ledger-emit_event, ledger-emit_if, ledger-emit_progress, ledger-thumbnails,
  ledger-send_with_retry,
}

-- The files that a run is through with, in one way or another, and the albums.
abbrev pub handled : Counts → ℕ
handled c = c.sent + c.failed + c.skipped

abbrev pub handled_albums : Counts → ℕ
handled_albums c = c.sent_albums + c.failed_albums

abbrev pub sent_by : ℕ → Counts → Counts
sent_by n c = record c { sent = c.sent + n; sent_albums = c.sent_albums + 1 }

abbrev pub failed_by : ℕ → Counts → Counts
failed_by n c = record c { failed = c.failed + n; failed_albums = c.failed_albums + 1 }

abbrev pub skipped_by : ℕ → Counts → Counts
skipped_by n c = record c { skipped = c.skipped + n }

pub length-keys :
    (fs gs : List AlbumFile) → map resume_key fs ≡ map resume_key gs → length fs ≡ length gs
length-keys fs gs h = sym (length-map resume_key fs) ∙ ap length h ∙ length-map resume_key gs

module _ {W S : Type 0} where
  counts-mark_sent :
      (inp : Input W S) (i : MarkSentInput) (p : Progress W S)
      → counts (mark_sent inp i p) ≡ counts p
  unfolding mark_sent
  counts-mark_sent inp i p = ground arith

  counts-mark_failed :
      (inp : Input W S) (i : MarkFailedInput) (p : Progress W S)
      → counts (mark_failed inp i p) ≡ counts p
  unfolding mark_failed
  counts-mark_failed inp i p = ground arith

  counts-mark_all_failed :
      (inp : Input W S) (target reason : Text) (files : List AlbumFile) (p : Progress W S)
      → counts (mark_all_failed inp target reason files p) ≡ counts p
  unfolding mark_all_failed
  counts-mark_all_failed inp target reason [] p = refl
  counts-mark_all_failed inp target reason (f ∷ fs) p =
      counts-mark_all_failed inp target reason fs _ ∙ counts-mark_failed inp _ p

  counts-mark_all_sent :
      (inp : Input W S) (target group : Text) (files : List AlbumFile) (ids : List ℕ)
      (msgs : List SentMessage) (p : Progress W S)
      → counts (mark_all_sent inp target group ids msgs files p) ≡ counts p
  unfolding mark_all_sent
  counts-mark_all_sent inp target group [] ids msgs p = refl
  counts-mark_all_sent inp target group (f ∷ fs) ids msgs p =
      counts-mark_all_sent inp target group fs (tail_of ids) (tail_of msgs) _
      ∙ counts-mark_sent inp _ p

  pub counts-fail_album :
      (inp : Input W S) (label target reason error : Text) (files : List AlbumFile)
      (p : Progress W S)
      → counts (fail_album inp label target reason error files p)
        ≡ failed_by (length files) (counts p)
  unfolding fail_album
  counts-fail_album inp label target reason error files p =
      ground (arith, ledger-emit_event inp, counts-mark_all_failed inp target reason files p)

  pub counts-finish_album :
      (inp : Input W S) (totals : Totals) (label target : Text) (files : List AlbumFile)
      (sent : SendResult) (p : Progress W S)
      → counts (finish_album inp totals label target files sent p)
        ≡ sent_by (length files) (counts p)
  unfolding finish_album
  counts-finish_album inp totals label target files sent p =
      let checked = postcheck_messages inp.services.format_seconds sent (length files) in
      let warning =
        event_of (codes "upload.album.postcheck_warning") label 0
          (join (codes "; ") checked.issues) in
      let warned = emit_if (not checked.ok_result) inp warning p in
      let marked =
        mark_all_sent inp target sent.group_id sent.message_ids sent.messages files warned in
      let counted = record marked {
        sent_files = marked.sent_files + length files;
        sent_bytes = marked.sent_bytes + sum_sizes files;
        sent_albums = marked.sent_albums + 1;
      } in
      let done = event_of (codes "upload.album.done") label (length files) (codes "") in
      ap (λ x. x.0) (ledger-emit_progress inp totals (codes "") (emit_event inp done counted))
      ∙ ap (λ x. x.0) (ledger-emit_event inp done counted)
      ∙ ap (λ c. sent_by (length files) c)
          (counts-mark_all_sent inp target sent.group_id files sent.message_ids sent.messages warned
            ∙ ap (λ x. x.0) (ledger-emit_if (not checked.ok_result) inp warning p))

  -- An album that is not empty ends as sent or as failed, with all its files.
  abbrev pub Ends : ℕ → Progress W S → Progress W S → Type 0
  Ends n p p' = (counts p' ≡ sent_by n (counts p)) ⊎ (counts p' ≡ failed_by n (counts p))

  counts-settle_album :
      (inp : Input W S) (totals : Totals) (label : Text) (target : ResolvedTarget)
      (files : List AlbumFile) (answer : Result SendResult) (p : Progress W S)
      → Ends (length files) p (settle_album inp totals label target files answer p)
  unfolding settle_album
  counts-settle_album inp totals label target files (ok sent) p =
      inl (counts-finish_album inp totals label target.raw files sent p)
  counts-settle_album inp totals label target files (err e) p =
      inr (counts-fail_album inp label target.raw (error_text e) (error_text e) files p)

  pub counts-deliver :
      (inp : Input W S) (totals : Totals) (label : Text) (target : ResolvedTarget)
      (files : List AlbumFile) (p : Progress W S)
      → (p' : Progress W S) × (deliver inp totals label target files p ≡ some p')
        × Ends (length files) p p'
  unfolding deliver
  counts-deliver inp totals label target files p =
      let (kept, keys) = ledger-thumbnails inp label files p in
      let ((p2, answer), sent, same) =
        ledger-send_with_retry inp (thumbnails inp label files p).1 target
          (thumbnails inp label files p).0 in
      let settled =
        settle_album inp totals label target (thumbnails inp label files p).1 answer p2 in
      let ends =
        counts-settle_album inp totals label target (thumbnails inp label files p).1 answer p2 in
      let len = length-keys (thumbnails inp label files p).1 files keys in
      let eq : counts p2 ≡ counts p = ap (λ x. x.0) (same ∙ kept) in
      (
        record settled { world = clean_all (thumbnails inp label files p).2 settled.world },
        ground (arith, sent),
        elim ends [
          | inl e ↦ inl (
              e
              ∙ ap (λ c. sent_by (length (thumbnails inp label files p).1) c) eq
              ∙ ap (λ n. sent_by n (counts p)) len)
          | inr e ↦ inr (
              e
              ∙ ap (λ c. failed_by (length (thumbnails inp label files p).1) c) eq
              ∙ ap (λ n. failed_by n (counts p)) len)
        ],
      )
