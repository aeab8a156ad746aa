-- ===== src/Media/Compress.antt =====
-- The compression of a photo (internal/media/image.go: `CompressPhoto`, `ffmpegScaleFilter`,
-- `searchBestFFmpegQ`, `searchBestStdlibQ`). What the file system, the decoders, the encoders and
-- the scaling of pixels give are parameters.
use tgup.Prelude.{
  ℕ, ◌+◌, Bool, true, false, not, Option, none, some, List, [], ◌∷◌, ◌++◌, ◌||◌, ◌&&◌, ◌==◌, leb,
  if◌then◌else◌,
}
use tgup.Prelude.Text.{Text, codes, text_eq, decimal}
use tgup.Media.Fit.{
  needs_compress, aspect_ratio, too_long, fit_sum_wh, fit_long_edge, detect_sum_wh, target_sum_wh,
  fallback_edge,
}
use tgup.Media.Temp.{
  Disk, Failure, open_failed, decode_failed, stat_failed, cannot_fit, Outcome, kept, failed,
  Encoder, run_ffmpeg, encode_jpeg,
}
use tgup.Media.Search.{search_ffmpeg, search_stdlib}
use tgup.Media.Orient.{Picture, width, height, apply_exif_orientation}

pub data ScaleMode : Type 0 where
  scale_none scale_sum_wh scale_long_edge : ScaleMode

pub record ImageConfig : Type 0 where
  pub width : ℕ
  pub height : ℕ
  pub format : Text

-- A path, as the calls on it see it: each may fail.
pub record Source (A : Type 0) : Type 0 where
  pub opens : Bool
  pub config : Option ImageConfig
  pub size : Option ℕ
  pub reopens : Bool
  pub picture : Option (Picture A)
  pub orientation : Option ℕ

-- What the program calls. `ffmpeg` encodes the source through a filter.
pub record Tools (A : Type 0) : Type 0 where
  pub clear : A
  pub scaled : ℕ → ℕ → ℕ → ℕ
  pub resize : Picture A → ℕ → ℕ → Picture A
  pub stat_fails : ℕ → Bool
  pub has_ffmpeg : Bool
  pub ffmpeg : Text → Encoder
  pub jpeg : Picture A → Encoder

-- `ffmpegScaleFilter`.
unfoldable pub ffmpeg_scale_filter : ScaleMode → Text
ffmpeg_scale_filter scale_none = []
ffmpeg_scale_filter scale_sum_wh =
    codes "scale='trunc(iw*min(1\\,"
    ++ decimal target_sum_wh
    ++ codes "/(iw+ih)))':'trunc(ih*min(1\\,"
    ++ decimal target_sum_wh
    ++ codes "/(iw+ih)))':flags=lanczos"
ffmpeg_scale_filter scale_long_edge =
    codes "scale='min("
    ++ decimal fallback_edge
    ++ codes ",iw)':'min("
    ++ decimal fallback_edge
    ++ codes ",ih)':force_original_aspect_ratio=decrease:flags=lanczos"

-- The result of `CompressPhoto`.
pub data Compressed : Type 0 where
  not_needed : Compressed
  compressed : ℕ → Compressed
  gave_up : Failure → Compressed

unfoldable pub mode_is_none : ScaleMode → Bool
mode_is_none scale_none = true
mode_is_none _ = false

unfoldable pub modes_for : ImageConfig → List ScaleMode
modes_for cfg =
    if leb (cfg.width + cfg.height) detect_sum_wh
    then scale_none ∷ scale_sum_wh ∷ scale_long_edge ∷ []
    else scale_sum_wh ∷ scale_long_edge ∷ []

module _ {A : Type 0} (tools : Tools A) where
  unfoldable pub resized_to : Picture A → ℕ × ℕ → Picture A
  unfolding width height
  resized_to img (tw, th) =
      if not (tw == width img) || not (th == height img) then tools.resize img tw th else img

  -- The `switch` over the mode.
  unfoldable pub scaled_by : ScaleMode → Picture A → Picture A
  unfolding resized_to fit_sum_wh fit_long_edge
  scaled_by scale_none img = img
  scaled_by scale_sum_wh img =
      resized_to img (fit_sum_wh tools.scaled (width img) (height img) target_sum_wh)
  scaled_by scale_long_edge img =
      resized_to img (fit_long_edge (width img) (height img) fallback_edge)

  unfoldable pub upright : Text → Option ℕ → Picture A → Picture A
  unfolding apply_exif_orientation
  upright format orientation img =
      if text_eq format (codes "jpeg")
      then apply_exif_orientation tools.clear orientation img
      else img

  unfoldable pub encode_picture : Encoder → Disk → Disk × Outcome
  unfolding search_stdlib
  encode_picture e d = search_stdlib tools.stat_fails (encode_jpeg e) d

  unfoldable pub search_picture :
      Text → ScaleMode → Option ℕ → Option (Picture A) → Disk → Disk × Outcome
  unfolding encode_picture scaled_by upright
  search_picture format mode orientation none d = (d, failed decode_failed)
  search_picture format mode orientation (some img) d =
      encode_picture (tools.jpeg (scaled_by mode (upright format orientation img))) d

  -- `searchBestStdlibQ`.
  unfoldable pub search_best_stdlib_q : Source A → Text → ScaleMode → Disk → Disk × Outcome
  unfolding search_picture
  search_best_stdlib_q src format mode d =
      if not src.reopens
      then (d, failed open_failed)
      else search_picture format mode src.orientation src.picture d

  -- `searchBestFFmpegQ`.
  unfoldable pub search_best_ffmpeg_q : ScaleMode → Disk → Disk × Outcome
  unfolding search_ffmpeg ffmpeg_scale_filter
  search_best_ffmpeg_q mode d =
      let e = tools.ffmpeg (ffmpeg_scale_filter mode) in
      search_ffmpeg tools.stat_fails (run_ffmpeg tools.stat_fails e) d

  unfoldable pub try_mode : Source A → Text → ScaleMode → Disk → Disk × Outcome
  unfolding search_best_stdlib_q search_best_ffmpeg_q mode_is_none
  try_mode src format mode d =
      if mode_is_none mode || not tools.has_ffmpeg
      then search_best_stdlib_q src format mode d
      else search_best_ffmpeg_q mode d

  -- The loop over the modes.
  unfoldable pub try_modes : Source A → Text → List ScaleMode → Disk → Disk × Compressed
  unfolding try_mode
  try_modes src format [] d = (d, gave_up cannot_fit)
  try_modes src format (mode ∷ modes) d =
      let r = try_mode src format mode d in
      elim r.1 [ kept n ↦ (r.0, compressed n) | failed f ↦ try_modes src format modes r.0 ]

  -- What follows the two calls on the file's header and size.
  unfoldable pub compress_sized : Source A → ImageConfig → Option ℕ → Disk → Disk × Compressed
  unfolding needs_compress aspect_ratio too_long modes_for try_modes
  compress_sized src cfg none d = (d, gave_up stat_failed)
  compress_sized src cfg (some size) d =
      if not (needs_compress cfg.width cfg.height size detect_sum_wh)
      then (d, not_needed)
      else if too_long (aspect_ratio cfg.width cfg.height)
      then (d, not_needed)
      else try_modes src cfg.format (modes_for cfg) d

  unfoldable pub compress_config : Source A → Option ImageConfig → Disk → Disk × Compressed
  unfolding compress_sized
  compress_config src none d = (d, not_needed)
  compress_config src (some cfg) d =
      if not (text_eq cfg.format (codes "jpeg")) && not (text_eq cfg.format (codes "png"))
      then (d, not_needed)
      else compress_sized src cfg src.size d

  -- `CompressPhoto`.
  unfoldable pub compress_photo : Source A → Disk → Disk × Compressed
  unfolding compress_config
  compress_photo src d =
      if not src.opens then (d, gave_up open_failed) else compress_config src src.config d
