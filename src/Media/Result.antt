-- ===== src/Media/Result.antt =====
-- What the compression of a photo leaves on the disk (internal/media/image.go: `CompressPhoto`).
use tgup.Prelude.{
  ℕ, ◌≡◌, ◌⊎◌, refl, inl, inr, not, Option, none, some, List, [], ◌∷◌, ◌||◌, ◌&&◌, arith,
  Bool-cases,
}
use tgup.Prelude.Text.{Text, codes, text_eq}
use tgup.Media.Fit.{needs_compress, too_long, aspect_ratio, detect_sum_wh}
use tgup.Media.Temp.{Disk, Outcome, kept, failed, Failure}
use tgup.Media.Tidy.{IsFresh, run_ffmpeg-IsTidy, encode_jpeg-IsTidy}
use tgup.Media.Leftovers.{Holds, Fits, path_of, search_ffmpeg-Holds, search_stdlib-Holds, nothing}
use tgup.Media.Orient.{Picture}
use tgup.Media.Compress.{
  ScaleMode, Tools, Source, Compressed, compressed, ImageConfig, mode_is_none, search_picture,
  encode_picture, search_best_stdlib_q, search_best_ffmpeg_q, try_mode, try_modes, modes_for,
  compress_sized, compress_config, compress_photo,
}

abbrev pub result_path : Compressed → Option ℕ
result_path (compressed n) = some n
result_path _ = none

module _ {A : Type 0} (tools : Tools A) (base : Disk) (fresh : IsFresh base) where
  Ok : Option ℕ → Disk → Type 0
  Ok n d = Holds (Fits tools.stat_fails) base n d

  outcome_split :
      (o : Outcome) (d : Disk)
      → Ok (path_of o) d
      → ((f : Failure) × (o ≡ failed f) × Ok none d) ⊎ ((n : ℕ) × (o ≡ kept n) × Ok (some n) d)
  outcome_split (failed f) d h = inl (f, refl, h)
  outcome_split (kept n) d h = inr (n, refl, h)

  search_picture-Ok :
      (format : Text) (mode : ScaleMode) (o : Option ℕ) (img : Option (Picture A)) (d : Disk)
      → Ok none d
      → Ok
          (path_of (search_picture tools format mode o img d).1)
          (search_picture tools format mode o img d).0
  unfolding Ok search_picture encode_picture
  search_picture-Ok format mode o none d h = h
  search_picture-Ok format mode o (some img) d h =
      search_stdlib-Holds tools.stat_fails base fresh _ (encode_jpeg-IsTidy _) d h

  try_mode-Ok :
      (src : Source A) (format : Text) (mode : ScaleMode) (d : Disk)
      → Ok none d
      → Ok (path_of (try_mode tools src format mode d).1) (try_mode tools src format mode d).0
  unfolding Ok try_mode search_best_ffmpeg_q search_best_stdlib_q
  try_mode-Ok src format mode d h = elim (Bool-cases (mode_is_none mode || not tools.has_ffmpeg)) [
    | inl library ↦ rw library (elim (Bool-cases (not src.reopens)) [
      | inl shut ↦ rw shut h
      | inr opened ↦ rw opened (search_picture-Ok format mode src.orientation src.picture d h)
    ])
    | inr program ↦
        rw program (search_ffmpeg-Holds tools.stat_fails base fresh _ (run_ffmpeg-IsTidy _ _) d h)
  ]

  try_modes-Ok :
      (src : Source A) (format : Text) (modes : List ScaleMode) (d : Disk)
      → Ok none d
      → Ok
          (result_path (try_modes tools src format modes d).1)
          (try_modes tools src format modes d).0
  unfolding try_modes
  try_modes-Ok src format [] d h = h
  try_modes-Ok src format (mode ∷ modes) d h =
      elim (outcome_split _ _ (try_mode-Ok src format mode d h)) [
        | inl (f, e, k) ↦ rw (try_modes, e) (try_modes-Ok src format modes _ k)
        | inr (n, e, k) ↦ rw (try_modes, e) k
      ]

  compress_sized-Ok :
      (src : Source A) (cfg : ImageConfig) (size : Option ℕ) (d : Disk)
      → Ok none d
      → Ok
          (result_path (compress_sized tools src cfg size d).1)
          (compress_sized tools src cfg size d).0
  unfolding compress_sized
  compress_sized-Ok src cfg none d h = h
  compress_sized-Ok src cfg (some size) d h =
      elim (Bool-cases (not (needs_compress cfg.width cfg.height size detect_sum_wh))) [
        | inl small ↦ rw small h
        | inr large ↦ rw large (elim (Bool-cases (too_long (aspect_ratio cfg.width cfg.height))) [
          | inl long ↦ rw long h
          | inr short ↦ rw short (try_modes-Ok src cfg.format (modes_for cfg) d h)
        ])
      ]

  compress_config-Ok :
      (src : Source A) (cfg : Option ImageConfig) (d : Disk)
      → Ok none d
      → Ok (result_path (compress_config tools src cfg d).1) (compress_config tools src cfg d).0
  unfolding compress_config
  compress_config-Ok src none d h = h
  compress_config-Ok src (some cfg) d h =
      elim (Bool-cases
        (not (text_eq cfg.format (codes "jpeg")) && not (text_eq cfg.format (codes "png")))) [
          | inl unknown ↦ rw unknown h
          | inr known ↦ rw known (compress_sized-Ok src cfg src.size d h)
        ]

  -- Compressing a photo, on a disk whose names were given by it, keeps the files that are there.
  -- Where it returns a path, that is one new file, on top of those, and it is within the limit
  -- unless its size cannot be read; where it returns none, no other file is left.
  pub compress_photo-Holds :
      (src : Source A)
      → Holds
          (Fits tools.stat_fails)
          base
          (result_path (compress_photo tools src base).1)
          (compress_photo tools src base).0
  unfolding compress_photo Ok
  compress_photo-Holds src = elim (Bool-cases (not src.opens)) [
    | inl shut ↦ rw shut (nothing base refl (omega arith))
    | inr opened ↦
        rw opened (compress_config-Ok src src.config base (nothing base refl (omega arith)))
  ]
