-- ===== src/Upload/Album.antt =====
-- One album of the pipeline (internal/upload/run.go: `processAlbum`).
use tgup.Prelude.{not}
use tgup.Prelude.{◌+◌, ◌&&◌, List, [], ◌∷◌, map, length, Option, none, some, ltb, if◌then◌else◌}
use tgup.Prelude.Text.{Text, codes, join}
use tgup.Errors.{Result, ok, err, error_text}
use tgup.Plan.Model as P
use tgup.Upload.Model.{AlbumFile, ResolvedTarget, SendResult, Input, Progress}
use tgup.Upload.Checks.{PrecheckResult, has_violations, precheck_album, postcheck_messages}
use tgup.Upload.Send.{clean_all, emit_event, emit_if, send_with_retry}
use tgup.Upload.Steps.{
  Totals, to_album_file, sum_sizes, event_of, emit_progress, mark_all_failed, mark_all_sent,
  pending_files, thumbnails,
}

module _ {W S : Type 0} where
  -- The end of an album that fails.
  unfoldable pub fail_album :
      Input W S → Text → Text → Text → Text → List AlbumFile → Progress W S → Progress W S
  unfolding emit_event mark_all_failed
  fail_album inp label target reason error files p =
      let marked = mark_all_failed inp target reason files p in
      emit_event inp (event_of (codes "upload.album.failed") label 0 error) (record marked {
        failed_files = marked.failed_files + length files;
        failed_albums = marked.failed_albums + 1;
      })

  -- Steps 5 and 6, after an album was sent.
  unfoldable pub finish_album :
      Input W S → Totals → Text → Text → List AlbumFile → SendResult → Progress W S → Progress W S
  unfolding emit_event emit_if emit_progress mark_all_sent postcheck_messages sum_sizes
  finish_album inp totals label target files sent p =
      let checked = postcheck_messages inp.services.format_seconds sent (length files) in
      let warned =
        emit_if (not checked.ok_result) inp
          (event_of (codes "upload.album.postcheck_warning") label 0
            (join (codes "; ") checked.issues))
          p in
      let marked =
        mark_all_sent inp target sent.group_id sent.message_ids sent.messages files warned in
      emit_progress inp totals (codes "") (
        emit_event inp (event_of (codes "upload.album.done") label (length files) (codes ""))
          (record marked {
            sent_files = marked.sent_files + length files;
            sent_bytes = marked.sent_bytes + sum_sizes files;
            sent_albums = marked.sent_albums + 1;
          }))

  unfoldable pub settle_album :
      Input W S
      → Totals
      → Text
      → ResolvedTarget
      → List AlbumFile
      → Result SendResult
      → Progress W S
      → Progress W S
  unfolding fail_album finish_album
  settle_album inp totals label target files (ok sent) p =
      finish_album inp totals label target.raw files sent p
  settle_album inp totals label target files (err e) p =
      fail_album inp label target.raw (error_text e) (error_text e) files p

  -- Steps 3 to 6, with the deferred clean-ups; `none` where the sending runs out of fuel.
  unfoldable pub deliver :
      Input W S
      → Totals
      → Text
      → ResolvedTarget
      → List AlbumFile
      → Progress W S
      → Option (Progress W S)
  unfolding thumbnails send_with_retry settle_album clean_all
  deliver inp totals label target files p =
      let (p1, files1, cleanups) = thumbnails inp label files p in
      elim (send_with_retry inp files1 target p1) [
        | none ↦ none
        | some (p2, answer) ↦
            let settled = settle_album inp totals label target files1 answer p2 in
            some (record settled { world = clean_all cleanups settled.world })
      ]

  -- Steps 2 to 6, with what the precheck answered.
  unfoldable pub checked_album :
      Input W S
      → Totals
      → Text
      → ResolvedTarget
      → W × List AlbumFile × PrecheckResult
      → Progress W S
      → Option (Progress W S)
  unfolding emit_if has_violations fail_album deliver
  checked_album inp totals label target (w, files, r) p0 =
      let p = record p0 { world = w } in
      let warned =
        emit_if (ltb 0 (length r.warnings)) inp
          (event_of (codes "upload.album.precheck_warning") label 0 (join (codes "; ") r.warnings))
          p in
      if has_violations r && inp.config.strict_metadata
      then some (
          fail_album inp label target.raw (codes "precheck: metadata violation")
            (codes "metadata violation") files warned)
      else deliver inp totals label target files warned

  -- An album with nothing left to send.
  unfoldable pub done_empty : Input W S → Text → Progress W S → Progress W S
  unfolding emit_event
  done_empty inp label p =
      emit_event inp (event_of (codes "upload.album.done") label 0 (codes ""))
        (record p { sent_albums = p.sent_albums + 1 })

  unfoldable pub process_pending :
      Input W S
      → Totals
      → Text
      → ResolvedTarget
      → List AlbumFile
      → Progress W S
      → Option (Progress W S)
  unfolding done_empty precheck_album checked_album
  process_pending inp totals label target [] p = some (done_empty inp label p)
  process_pending inp totals label target (f ∷ fs) p =
      checked_album inp totals label target
        (precheck_album inp.services.probe_video (f ∷ fs) p.world) p

  -- `processAlbum`.
  unfoldable pub process_album :
      Input W S → Totals → ResolvedTarget → P.Album → Progress W S → Option (Progress W S)
  unfolding to_album_file emit_event emit_progress pending_files process_pending
  process_album inp totals target album p =
      let files = map to_album_file album.items in
      let started = emit_progress inp totals album.label (
        emit_event inp (event_of (codes "upload.album.start") album.label (length files) (codes ""))
          p) in
      let (p1, pending) = pending_files inp files started in
      process_pending inp totals album.label target pending p1
