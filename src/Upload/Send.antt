-- ===== src/Upload/Send.antt =====
-- Sending the files of an album (internal/upload/run.go: `emitEvent`, `compressOversizedImages`,
-- `sendAlbumOnce` and `sendWithRetry`).
pub mod Retry
pub mod Documents
use tgup.Prelude.{
  ℕ, zero, suc, ◌+◌, Bool, true, false, not, ◌&&◌, List, [], ◌∷◌, ◌++◌, map, Option, none, some,
  ltb, if◌then◌else◌,
}
use tgup.Prelude.Text.{Text, codes, text_eq, to_lower, trim_space}
use tgup.Errors.{Error, Result, ok, err, error_text, is_image_process_failed}
use tgup.Media.Model as M
use tgup.Upload.Model.{
  AlbumFile, Event, ResolvedTarget, VideoMeta, SendSingleRequest, AlbumMedia, SendAlbumRequest,
  SendResult, Services, Input, Progress,
}

abbrev pub max_image_retries : ℕ
max_image_retries = 1

-- `videoMetaFromFile`.
unfoldable pub video_meta : AlbumFile → Option VideoMeta
video_meta f = elim f.metadata [
  | none ↦ none
  | some m ↦ some (record { duration = m.duration_seconds; width = m.width; height = m.height })
]

-- `strings.ToLower(strings.TrimSpace(…))`.
unfoldable pub normalized : Text → Text
normalized mode = to_lower (trim_space mode)

unfoldable pub is_image : AlbumFile → Bool
is_image f = elim f.kind [ M.Kind.image ↦ true | _ ↦ false ]

-- Whether the loop tries once more, as a document.
unfoldable pub retries_as_document : Text → Bool → ℕ → Error → Bool
retries_as_document mode document retries e =
    is_image_process_failed e
    && not document
    && text_eq mode (codes "auto")
    && ltb retries max_image_retries

unfoldable pub clean_all : {W : Type 0} → List (W → W) → W → W
clean_all [] w = w
clean_all (cleanup ∷ cleanups) w = clean_all cleanups (cleanup w)

module _ {W S : Type 0} where
  -- `emitEvent`.
  unfoldable pub emit_event : Input W S → Event → Progress W S → Progress W S
  emit_event inp e p = if inp.on_event then record p { events = p.events ++ e ∷ [] } else p

  unfoldable pub emit_if : Bool → Input W S → Event → Progress W S → Progress W S
  unfolding emit_event
  emit_if b inp e p = if b then emit_event inp e p else p

  -- What follows when a compressed image was measured: the file to send and the later clean-up;
  -- or the clean-up at once.
  unfoldable pub measured :
      Input W S
      → AlbumFile
      → Text
      → (W → W)
      → W × Result ℕ
      → Progress W S
      → Progress W S × AlbumFile × List (W → W)
  measured inp f path cleanup (w, ok size) p =
      (record p { world = w }, record f { path = path; size = size }, cleanup ∷ [])
  measured inp f path cleanup (w, err e) p = (record p { world = cleanup w }, f, [])

  unfoldable pub compressed :
      Input W S
      → AlbumFile
      → W × Result (Text × (W → W))
      → Progress W S
      → Progress W S × AlbumFile × List (W → W)
  unfolding emit_event measured
  compressed inp f (w, err e) p = (
    emit_event inp
        (record {
          kind = codes "upload.compress_warning";
          album = codes "";
          files = 0;
          error = f.path ++ codes ": " ++ error_text e;
        })
        (record p { world = w }),
    f,
    [],
  )
  compressed inp f (w, ok (path, cleanup)) p =
      if text_eq path (codes "")
      then (record p { world = w }, f, [])
      else measured inp f path cleanup (inp.services.stat_size path w) (record p { world = w })

  -- The loop of `compressOversizedImages`: the files to send, and the later clean-ups.
  unfoldable pub compress_images :
      Input W S → List AlbumFile → Progress W S → Progress W S × List AlbumFile × List (W → W)
  unfolding is_image compressed
  compress_images inp [] p = (p, [], [])
  compress_images inp (f ∷ fs) p = elim (is_image f) [
    | false ↦ let (p', fs', tmp) = compress_images inp fs p in (p', f ∷ fs', tmp)
    | true ↦
        let (p1, f', tmp) = compressed inp f (inp.services.compress f.path p.world) p in
        let (p2, fs', more) = compress_images inp fs p1 in (p2, f' ∷ fs', tmp ++ more)
  ]

  unfoldable pub album_media : Input W S → Bool → Text → List AlbumFile → List AlbumMedia
  unfolding video_meta
  album_media inp document caption [] = []
  album_media inp document caption (f ∷ fs) =
      record {
        path = f.path;
        caption = caption;
        force_document = document;
        supports_streaming = true;
        thumbnail_path = f.thumbnail;
        video = video_meta f;
      }
      ∷ album_media inp document (codes "") fs

  -- `sendAlbumOnce`; only the first item of an album has a caption.
  unfoldable pub send_album_once :
      Input W S → List AlbumFile → ResolvedTarget → Bool → W → W × Result SendResult
  unfolding album_media video_meta
  send_album_once inp (f ∷ []) target document w =
      inp.services.send_single
        (record {
          target = target;
          path = f.path;
          caption = inp.config.caption;
          parse_mode = inp.config.parse_mode;
          force_document = document;
          supports_streaming = true;
          thumbnail_path = f.thumbnail;
          video = video_meta f;
        })
        w
  send_album_once inp files target document w =
      inp.services.send_album
        (record {
          target = target;
          items = album_media inp document inp.config.caption files;
          parse_mode = inp.config.parse_mode;
        })
        w

  -- The loop of `sendWithRetry`; `none` where the fuel runs out.
  unfoldable pub send_loop :
      ℕ
      → Input W S
      → List AlbumFile
      → ResolvedTarget
      → Text
      → Bool
      → ℕ
      → W
      → Option (W × Result SendResult)
  unfolding retries_as_document
  send_loop zero inp files target mode document retries w = none
  send_loop (suc fuel) inp files target mode document retries w =
      let (w', answer) = send_album_once inp files target document w in
      elim answer [
        | ok result ↦ some (w', ok result)
        | err e ↦ elim (retries_as_document mode document retries e) [
          | true ↦ send_loop fuel inp files target mode true (retries + 1) w'
          | false ↦ some (w', err e)
        ]
      ]

  -- The loop makes at most two rounds: the fuel is enough.
  unfoldable pub send_files :
      Input W S
      → List AlbumFile
      → ResolvedTarget
      → Text
      → Progress W S
      → Option (Progress W S × Result SendResult)
  unfolding send_loop
  send_files inp files target mode p =
      elim (send_loop 2 inp files target mode (text_eq mode (codes "document")) 0 p.world) [
        | none ↦ none
        | some (w, answer) ↦ some (record p { world = w }, answer)
      ]

  unfoldable pub send_compressed :
      Input W S
      → ResolvedTarget
      → Text
      → Progress W S × List AlbumFile × List (W → W)
      → Option (Progress W S × Result SendResult)
  unfolding send_files clean_all
  send_compressed inp target mode (p, files, tmp) = elim (send_files inp files target mode p) [
    | none ↦ none
    | some (p', answer) ↦ some (record p' { world = clean_all tmp p'.world }, answer)
  ]

  -- `sendWithRetry`.
  unfoldable pub send_with_retry :
      Input W S
      → List AlbumFile
      → ResolvedTarget
      → Progress W S
      → Option (Progress W S × Result SendResult)
  unfolding normalized compress_images send_files send_compressed
  send_with_retry inp files target p =
      let mode = normalized inp.config.image_mode in
      if text_eq mode (codes "compress")
      then send_compressed inp target mode (compress_images inp files p)
      else send_files inp files target mode p
