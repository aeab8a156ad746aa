-- ===== src/Media/Tests.antt =====
-- Tests of the image functions.
use native.Mathlib.Nat.{mul-div-le, lt-div-mul-add}
use tgup.Prelude.{
  ℕ, suc, ◌+◌, ◌*◌, ◌/◌, ◌≤◌, ◌<◌, ◌≡◌, ◌⊎◌, refl, true, false, some, [], ◌∷◌, arith,
}
use tgup.Prelude.Text.{codes, text_eq}
use tgup.Media.Fit.{fit_long_edge, fit_long_edge-bounds, fit_sum_wh, fit_sum_wh-bounds, Rounding}
use tgup.Media.Temp.{Disk, Encoder, file_size, encode_jpeg}
use tgup.Media.Search.{search_stdlib}
use tgup.Media.Orient.{Picture, apply_exif_orientation}
use tgup.Media.Compress.{Source, Tools, compressed, compress_photo}
use tgup.Media.Leftovers.{Holds, Fits}
use tgup.Media.Result.{result_path, compress_photo-Holds}
use tgup.Media.Best.{IsBest, search_stdlib-IsBest, encode_jpeg-Encodes}
use tgup.Media.Loops.{HasPixel}
use tgup.Media.Pixels.{upright_size, stored_place, apply_exif_orientation-HasPixel}

landscape_edge : fit_long_edge 6000 4000 2560 ≡ (2560, 1706)
unfolding fit_long_edge
landscape_edge = refl

fit_long_edge-bounds_example :
    (1 ≤ (fit_long_edge 6000 4000 2560).0)
    × ((fit_long_edge 6000 4000 2560).0 ≤ 2560)
    × (1 ≤ (fit_long_edge 6000 4000 2560).1)
    × ((fit_long_edge 6000 4000 2560).1 ≤ 2560)
    × (6000 ≤ 2560 → 4000 ≤ 2560 → fit_long_edge 6000 4000 2560 ≡ (6000, 4000))
    × ((2560 < 6000) ⊎ (2560 < 4000)
        → ((fit_long_edge 6000 4000 2560).0 ≡ 2560) ⊎ ((fit_long_edge 6000 4000 2560).1 ≡ 2560))
fit_long_edge-bounds_example =
    fit_long_edge-bounds 6000 4000 2560 (omega arith) (omega arith) (omega arith)

-- Scaling with no rounding but that of the result.
abbrev exactly : ℕ → ℕ → ℕ → ℕ
exactly x m n = x * m / n

exactly-Rounding : Rounding exactly
exactly-Rounding = record {
  over = λ x m n le small some_left bounded. omega (arith, mul-div-le (x * m) n);
  under = λ x m n le small some_left bounded.
      omega (arith, lt-div-mul-add {a = x * m} {b = n} some_left);
}

fit_sum_wh-bounds_example :
    (1 ≤ (fit_sum_wh exactly 8000 6000 9600).0)
    × (1 ≤ (fit_sum_wh exactly 8000 6000 9600).1)
    × ((fit_sum_wh exactly 8000 6000 9600).0 + (fit_sum_wh exactly 8000 6000 9600).1 ≤ 9600)
fit_sum_wh-bounds_example =
    fit_sum_wh-bounds exactly exactly-Rounding 8000 6000 9600 (omega arith) (omega arith)
      (omega arith) (omega arith) (omega arith)

-- An encoder whose files grow with the quality, and a disk with another file.
abbrev linear : ℕ → ℕ
linear q = q * 100000

abbrev growing : Encoder
growing = record {
  create_fails = λ n. false;
  write = λ q n. some (linear q);
  close_fails = λ n. false;
}

abbrev disk : Disk
disk = record { files = (3, 77) ∷ []; made = 4 }

best_of_linear :
    (search_stdlib (λ n. false) (encode_jpeg growing) disk).0.files ≡ (11, 9500000) ∷ (3, 77) ∷ []
unfolding search_stdlib encode_jpeg file_size
best_of_linear = refl

search_stdlib-IsBest_example :
    IsBest linear
      (λ n. false)
      disk
      (omega arith, tt)
      (search_stdlib (λ n. false) (encode_jpeg growing) disk).0
      (search_stdlib (λ n. false) (encode_jpeg growing) disk).1
search_stdlib-IsBest_example =
    search_stdlib-IsBest linear (λ n. false) disk (omega arith, tt) (encode_jpeg growing)
      (encode_jpeg-Encodes linear (λ n. false) growing (λ n. refl) (λ n. refl) (λ n. refl)
        (λ q n. refl))
      (λ q r le. omega arith)

-- Two pixels side by side, numbered 1 and 2.
abbrev two_pixels : Picture ℕ
two_pixels = record { min_x = 0; min_y = 0; max_x = 2; max_y = 1; at = λ x y. suc x }

apply_exif_orientation-HasPixel_example :
    HasPixel 1 2 0 1 2 (apply_exif_orientation 0 (some 6) two_pixels)
unfolding upright_size stored_place
apply_exif_orientation-HasPixel_example =
    apply_exif_orientation-HasPixel 0 two_pixels 2 1 (refl, refl, refl, refl) 6 0 1 (omega arith)
      (omega arith)

-- A file of ten megabytes.
abbrev large_file : Source ℕ
large_file = record {
  opens = true;
  config = some (record { width = 2; height = 1; format = codes "jpeg" });
  size = some 10000000;
  reopens = true;
  picture = some two_pixels;
  orientation = some 6;
}

abbrev library_only : Tools ℕ
library_only = record {
  clear = 0;
  scaled = exactly;
  resize = λ p w h. p;
  stat_fails = λ n. false;
  has_ffmpeg = false;
  ffmpeg = λ filter. growing;
  jpeg = λ p. growing;
}

compresses_large_file : (compress_photo library_only large_file disk).1 ≡ compressed 11
unfolding compress_photo text_eq encode_jpeg file_size
compresses_large_file = refl

compress_photo-Holds_example :
    Holds
      (Fits (λ n. false))
      disk
      (result_path (compress_photo library_only large_file disk).1)
      (compress_photo library_only large_file disk).0
compress_photo-Holds_example = compress_photo-Holds library_only disk (omega arith, tt) large_file
