-- ===== src/Media/Temp.antt =====
-- Temporary files and the encoders that write them (internal/media/image.go: `runFFmpeg`,
-- `encodeJPEG`, `fileSize`). The disk holds the temporary files, each with its size, under
-- numbers for their names; a clean-up function is the removal of its file.
use tgup.Prelude.{ℕ, suc, Bool, Option, none, some, List, [], ◌∷◌, ◌==◌, ◌||◌, if◌then◌else◌}

pub record Disk : Type 0 where
  pub files : List (ℕ × ℕ)
  pub made : ℕ  -- the number of names given so far

pub data Failure : Type 0 where
  create_failed tool_failed empty_output close_failed cannot_fit : Failure
  open_failed decode_failed stat_failed : Failure

-- The path of a file that was written, to be cleaned up by the caller, or an error.
pub data Outcome : Type 0 where
  kept : ℕ → Outcome
  failed : Failure → Outcome

-- What an encoder does for a quality, in terms of the number of the temporary file; `write` gives
-- the size of what it wrote.
pub record Encoder : Type 0 where
  pub create_fails : ℕ → Bool
  pub write : ℕ → ℕ → Option ℕ
  pub close_fails : ℕ → Bool

-- `os.CreateTemp`.
unfoldable pub create_temp : Disk → Disk
create_temp d = record { files = (d.made, 0) ∷ d.files; made = suc d.made }

-- `os.Remove`.
unfoldable pub without : ℕ → List (ℕ × ℕ) → List (ℕ × ℕ)
without n [] = []
without n (f ∷ fs) = let rest = without n fs in if f.0 == n then rest else f ∷ rest

unfoldable pub remove : ℕ → Disk → Disk
unfolding without
remove n d = record { files = without n d.files; made = d.made }

unfoldable pub resized : ℕ → ℕ → List (ℕ × ℕ) → List (ℕ × ℕ)
resized n s [] = []
resized n s (f ∷ fs) = let rest = resized n s fs in if f.0 == n then (n, s) ∷ fs else f ∷ rest

unfoldable pub write_file : ℕ → ℕ → Disk → Disk
unfolding resized
write_file n s d = record { files = resized n s d.files; made = d.made }

unfoldable pub size_in : ℕ → List (ℕ × ℕ) → ℕ
size_in n [] = 0
size_in n (f ∷ fs) = let rest = size_in n fs in if f.0 == n then f.1 else rest

-- `fileSize`.
unfoldable pub file_size : (ℕ → Bool) → ℕ → Disk → ℕ
unfolding size_in
file_size stat_fails n d = if stat_fails n then 0 else size_in n d.files

-- What follows the call of the program.
unfoldable pub ffmpeg_wrote : Bool → ℕ → Option ℕ → Disk → Disk × Outcome
unfolding remove write_file
ffmpeg_wrote stat_fails n none d = (remove n d, failed tool_failed)
ffmpeg_wrote stat_fails n (some s) d =
    if stat_fails || s == 0
    then (remove n (write_file n s d), failed empty_output)
    else (write_file n s d, kept n)

-- `runFFmpeg`, where `stat_fails` tells for which files `os.Stat` fails.
unfoldable pub run_ffmpeg : (ℕ → Bool) → Encoder → ℕ → Disk → Disk × Outcome
unfolding create_temp ffmpeg_wrote
run_ffmpeg stat_fails e q d =
    if e.create_fails d.made
    then (d, failed create_failed)
    else ffmpeg_wrote (stat_fails d.made) d.made (e.write q d.made) (create_temp d)

unfoldable pub jpeg_wrote : Bool → ℕ → Option ℕ → Disk → Disk × Outcome
unfolding remove write_file
jpeg_wrote close_fails n none d = (remove n d, failed tool_failed)
jpeg_wrote close_fails n (some s) d =
    if close_fails
    then (remove n (write_file n s d), failed close_failed)
    else (write_file n s d, kept n)

-- `encodeJPEG`.
unfoldable pub encode_jpeg : Encoder → ℕ → Disk → Disk × Outcome
unfolding create_temp jpeg_wrote
encode_jpeg e q d =
    if e.create_fails d.made
    then (d, failed create_failed)
    else jpeg_wrote (e.close_fails d.made) d.made (e.write q d.made) (create_temp d)
