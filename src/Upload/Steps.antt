-- ===== src/Upload/Steps.antt =====
-- The steps of an album before and around the sending (internal/upload/run.go: the loops of
-- `processAlbum` and the helpers it calls).
use tgup.Prelude.{Option, none, some}
use tgup.Prelude.{
  ℕ, ◌+◌, Bool, true, false, not, ◌&&◌, ◌||◌, List, [], ◌∷◌, ◌++◌, map, none, some, ltb,
  if◌then◌else◌,
}
use tgup.Prelude.Text.{Text, codes, text_eq}
use tgup.Errors.{Result, ok, err, error_text}
use tgup.Scan.Model as S
use tgup.State.Model.{MarkSentInput, MarkFailedInput}
use tgup.Upload.Model.{Config}
use tgup.Upload.Model.{
  AlbumFile, Event, SentMessage, Store, Input, Progress, to_media_kind, resume_key,
}
use tgup.Upload.Checks.{is_video}
use tgup.Upload.Send.{normalized, emit_event}

-- The totals of `processArgs`.
pub record Totals : Type 0 where
  pub files : ℕ
  pub bytes : ℕ
  pub albums : ℕ

unfoldable pub to_album_file : S.Item → AlbumFile
unfolding to_media_kind
to_album_file item = record {
  path = item.path;
  size = item.size;
  mtime_ns = item.mtime_ns;
  kind = to_media_kind item.kind;
  metadata = none;
  thumbnail = codes "";
}

unfoldable pub sum_sizes : List AlbumFile → ℕ
sum_sizes [] = 0
sum_sizes (f ∷ fs) = f.size + sum_sizes fs

abbrev pub event_of : Text → Text → ℕ → Text → Event
event_of kind album files error = record {
  kind = kind;
  album = album;
  files = files;
  error = error;
}

-- Whether a file is left out by the answer of `IsDone`: an error includes it, and so does the
-- policy "upload"; every other policy skips a file that is done.
unfoldable pub is_skipped : Text → Result Bool → Bool
is_skipped duplicate (err e) = false
is_skipped duplicate (ok done) = done && not (text_eq duplicate (codes "upload"))

-- The identifiers that are recorded for the file at the head of both lists.
unfoldable pub first_positive : List ℕ → List ℕ
first_positive [] = []
first_positive (n ∷ ns) = if ltb 0 n then n ∷ [] else []

unfoldable pub file_ids : List ℕ → List SentMessage → List ℕ
unfolding first_positive
file_ids ids msgs = elim (first_positive ids) [
  | [] ↦ first_positive (map (λ m. m.id) msgs)
  | n ∷ ns ↦ n ∷ []
]

unfoldable pub tail_of : {A : Type 0} → List A → List A
tail_of [] = []
tail_of (x ∷ xs) = xs

unfoldable pub set_thumbnail : Text → AlbumFile → AlbumFile
unfolding is_video
set_thumbnail path f = if is_video f then record f { thumbnail = path } else f

module _ {W S : Type 0} where
  -- `emitProgress`.
  unfoldable pub emit_progress : Input W S → Totals → Text → Progress W S → Progress W S
  emit_progress inp totals label p =
      if inp.on_progress
      then record p {
        snapshots =
            p.snapshots
            ++ record {
              sent_bytes = p.sent_bytes;
              total_bytes = totals.bytes;
              sent_files = p.sent_files;
              total_files = totals.files;
              sent_albums = p.sent_albums;
              total_albums = totals.albums;
              failed_albums = p.failed_albums;
              current_label = label;
            }
              ∷ [];
      }
      else p

  -- `markSent`, which drops the store's error.
  unfoldable pub mark_sent : Input W S → MarkSentInput → Progress W S → Progress W S
  mark_sent inp i p = elim inp.store [
    | none ↦ p
    | some store ↦ record p { store = (store.mark_sent i p.store).0 }
  ]

  -- `markFailed`, which drops the store's error.
  unfoldable pub mark_failed : Input W S → MarkFailedInput → Progress W S → Progress W S
  mark_failed inp i p = elim inp.store [
    | none ↦ p
    | some store ↦ record p { store = (store.mark_failed i p.store).0 }
  ]

  unfoldable pub mark_all_failed :
      Input W S → Text → Text → List AlbumFile → Progress W S → Progress W S
  unfolding mark_failed resume_key
  mark_all_failed inp target reason [] p = p
  mark_all_failed inp target reason (f ∷ fs) p =
      mark_all_failed inp target reason fs
        (mark_failed inp (record { key = resume_key f; target = target; error_reason = reason }) p)

  -- The loop of step 6, from the identifiers and the messages that are left.
  unfoldable pub mark_all_sent :
      Input W S
      → Text
      → Text
      → List ℕ
      → List SentMessage
      → List AlbumFile
      → Progress W S
      → Progress W S
  unfolding mark_sent resume_key file_ids tail_of
  mark_all_sent inp target group ids msgs [] p = p
  mark_all_sent inp target group ids msgs (f ∷ fs) p =
      mark_all_sent inp target group (tail_of ids) (tail_of msgs) fs (
        mark_sent inp
          (record {
            key = resume_key f;
            target = target;
            message_ids = file_ids ids msgs;
            album_group_id = group;
          })
          p)

  unfoldable pub skip_file : AlbumFile → Progress W S → Progress W S
  skip_file f p = record p {
    skipped_files = p.skipped_files + 1;
    sent_bytes = p.sent_bytes + f.size;
  }

  -- The loop of step 1: the files that are pending.
  unfoldable pub filter_done :
      Text → Store S → List AlbumFile → Progress W S → Progress W S × List AlbumFile
  unfolding is_skipped skip_file resume_key
  filter_done duplicate store [] p = (p, [])
  filter_done duplicate store (f ∷ fs) p =
      elim (is_skipped duplicate (store.is_done (resume_key f) p.store)) [
        | true ↦ filter_done duplicate store fs (skip_file f p)
        | false ↦ let (p', pending) = filter_done duplicate store fs p in (p', f ∷ pending)
      ]

  unfoldable pub pending_in :
      Config → Option (Store S) → List AlbumFile → Progress W S → Progress W S × List AlbumFile
  unfolding filter_done
  pending_in config none files p = (p, files)
  pending_in config (some store) files p =
      if config.resume then filter_done config.duplicate store files p else (p, files)

  -- Step 1.
  unfoldable pub pending_files :
      Input W S → List AlbumFile → Progress W S → Progress W S × List AlbumFile
  unfolding pending_in
  pending_files inp files p = pending_in inp.config inp.store files p

  unfoldable pub thumbnailed :
      Input W S
      → Text
      → AlbumFile
      → W × Result (Text × (W → W))
      → Progress W S
      → Progress W S × AlbumFile × List (W → W)
  unfolding emit_event
  thumbnailed inp label f (w, ok (path, cleanup)) p =
      (record p { world = w }, record f { thumbnail = path }, cleanup ∷ [])
  thumbnailed inp label f (w, err e) p = (
    emit_event inp
        (event_of (codes "upload.album.thumbnail_warning") label 0
          (f.path ++ codes ": " ++ error_text e))
        (record p { world = w }),
    f,
    [],
  )

  unfoldable pub auto_thumbnails :
      Input W S
      → Text
      → (Text → W → W × Result (Text × (W → W)))
      → List AlbumFile
      → Progress W S
      → Progress W S × List AlbumFile × List (W → W)
  unfolding is_video thumbnailed
  auto_thumbnails inp label extract [] p = (p, [], [])
  auto_thumbnails inp label extract (f ∷ fs) p = elim (is_video f) [
    | false ↦ let (p', fs', cs) = auto_thumbnails inp label extract fs p in (p', f ∷ fs', cs)
    | true ↦
        let (p1, f', c) = thumbnailed inp label f (extract f.path p.world) p in
        let (p2, fs', cs) = auto_thumbnails inp label extract fs p1 in (p2, f' ∷ fs', c ++ cs)
  ]

  -- The policy "auto", where there may be no thumbnailer.
  unfoldable pub try_thumbnails :
      Input W S
      → Text
      → Option (Text → W → W × Result (Text × (W → W)))
      → List AlbumFile
      → Progress W S
      → Progress W S × List AlbumFile × List (W → W)
  unfolding auto_thumbnails
  try_thumbnails inp label none files p = (p, files, [])
  try_thumbnails inp label (some extract) files p = auto_thumbnails inp label extract files p

  -- Step 3: the files with their thumbnails, and the deferred clean-ups.
  unfoldable pub thumbnails :
      Input W S
      → Text
      → List AlbumFile
      → Progress W S
      → Progress W S × List AlbumFile × List (W → W)
  unfolding normalized try_thumbnails set_thumbnail
  thumbnails inp label files p =
      let policy = normalized inp.config.video_thumbnail in
      if text_eq policy (codes "auto")
      then try_thumbnails inp label inp.services.extract_thumbnail files p
      else if text_eq policy (codes "") || text_eq policy (codes "off")
      then (p, files, [])
      else (p, map (set_thumbnail inp.config.video_thumbnail) files, [])
