-- ===== src/Media/Search.antt =====
-- The two searches of a quality (internal/media/image.go: `searchBestFFmpegQ`,
-- `searchBestStdlibQ` from its quick check on), over what encodes at a quality: `run_ffmpeg` and
-- `encode_jpeg` of Media/Temp. A loop runs on fuel for the number of qualities in its window.
use tgup.Prelude.{
  ℕ, zero, suc, ◌+◌, ◌-◌, ◌/◌, Bool, true, false, Option, none, some, ltb, leb, if◌then◌else◌,
}
use tgup.Media.Fit.{max_photo_bytes}
use tgup.Media.Temp.{Disk, Outcome, kept, failed, Failure, cannot_fit, remove, file_size}

-- What became of one attempt.
pub data Attempt : Type 0 where
  broken : Failure → Attempt
  fitted : ℕ → Attempt
  too_large : Attempt

-- `resultCleanup()`, where there is one.
unfoldable pub clean_up : Option ℕ → Disk → Disk
clean_up none d = d
clean_up (some n) d = remove n d

unfoldable pub finish : Option ℕ → Disk → Disk × Outcome
finish none d = (d, failed cannot_fit)
finish (some n) d = (d, kept n)

unfoldable pub judged : (ℕ → Bool) → Option ℕ → Disk → Outcome → Disk × Attempt
unfolding clean_up
judged stat_fails best d (failed f) = (clean_up best d, broken f)
judged stat_fails best d (kept n) =
    if leb (file_size stat_fails n d) max_photo_bytes
    then (clean_up best d, fitted n)
    else (remove n d, too_large)

module _ (stat_fails : ℕ → Bool) (run : ℕ → Disk → Disk × Outcome) where
  -- One encoding: what failed or fits replaces the best file so far, what is too large goes.
  unfoldable pub attempt : Option ℕ → ℕ → Disk → Disk × Attempt
  unfolding judged
  attempt best q d = judged stat_fails best (run q d).0 (run q d).1

  -- The loop of `searchBestFFmpegQ`, where a smaller number is a better quality.
  unfoldable pub search_down : ℕ → ℕ → ℕ → Option ℕ → Disk → Disk × Outcome
  unfolding attempt finish
  search_down zero low high best d = finish best d
  search_down (suc fuel) low high best d =
      let mid = (low + high) / 2 in
      let r = attempt best mid d in
      elim (ltb high low) [
        | true ↦ finish best d
        | false ↦ elim r.1 [
          | broken f ↦ (r.0, failed f)
          | fitted n ↦ search_down fuel low (mid - 1) (some n) r.0
          | too_large ↦ search_down fuel (mid + 1) high best r.0
        ]
      ]

  unfoldable pub search_ffmpeg : Disk → Disk × Outcome
  unfolding attempt search_down
  search_ffmpeg d =
      let r = attempt none 1 d in
      elim r.1 [
        | broken f ↦ (r.0, failed f)
        | fitted n ↦ (r.0, kept n)
        | too_large ↦ search_down 30 2 31 none r.0
      ]

  -- The loop of `searchBestStdlibQ`, where a greater number is a better quality.
  unfoldable pub search_up : ℕ → ℕ → ℕ → Option ℕ → Disk → Disk × Outcome
  unfolding attempt finish
  search_up zero low high best d = finish best d
  search_up (suc fuel) low high best d =
      let mid = (low + high + 1) / 2 in
      let r = attempt best mid d in
      elim (ltb high low) [
        | true ↦ finish best d
        | false ↦ elim r.1 [
          | broken f ↦ (r.0, failed f)
          | fitted n ↦ search_up fuel (mid + 1) high (some n) r.0
          | too_large ↦ search_up fuel low (mid - 1) best r.0
        ]
      ]

  unfoldable pub search_stdlib : Disk → Disk × Outcome
  unfolding attempt search_up
  search_stdlib d =
      let r = attempt none 100 d in
      elim r.1 [
        | broken f ↦ (r.0, failed f)
        | fitted n ↦ (r.0, kept n)
        | too_large ↦ search_up 99 1 99 none r.0
      ]
