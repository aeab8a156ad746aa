-- ===== src/Media/Tidy.antt =====
-- What an encoder does to the disk of temporary files (internal/media/image.go: `runFFmpeg`,
-- `encodeJPEG`).
use tgup.Prelude.{
  ℕ, ◌≤◌, ◌<◌, ◌≡◌, refl, inl, inr, Bool, true, false, Option, none, some, List, [], ◌∷◌, ◌==◌,
  ◌||◌, All, arith, Bool-cases,
}
use tgup.Media.Temp.{
  Disk, Encoder, Outcome, kept, failed, create_temp, without, remove, resized, size_in, write_file,
  size_in, ffmpeg_wrote, run_ffmpeg, jpeg_wrote, encode_jpeg,
}

-- The names on the disk were given by it.
abbrev pub IsFresh : Disk → Type 0
IsFresh d = All (λ f. f.0 < d.made) d.files

-- A new file, or none, on top of those of `d`.
abbrev pub Adds : Disk → Disk → Outcome → Type 0
Adds d d' (kept n) = (s : ℕ) × (d'.files ≡ (n, s) ∷ d.files) × (d.made ≤ n) × (n < d'.made)
Adds d d' (failed f) = (d'.files ≡ d.files) × (d.made ≤ d'.made)

pub without-fresh :
    (n m : ℕ) (fs : List (ℕ × ℕ)) → All (λ f. f.0 < m) fs → m ≤ n → without n fs ≡ fs
unfolding without
without-fresh n m [] h le = refl
without-fresh n m (f ∷ fs) (h, hs) le = ground (arith, without-fresh n m fs hs le)

-- What the disk was given goes when it is removed.
pub without-new :
    (n s m : ℕ) (fs : List (ℕ × ℕ)) → All (λ f. f.0 < m) fs → m ≤ n → without n ((n, s) ∷ fs) ≡ fs
unfolding without
without-new n s m fs h le = ground (arith, without-fresh n m fs h le)

-- A file that is made, and removed or written.
removed_new : (d : Disk) → IsFresh d → without d.made ((d.made, 0) ∷ d.files) ≡ d.files
removed_new d h = without-new d.made 0 d.made d.files h (omega arith)

pub resized_new : (n s : ℕ) (fs : List (ℕ × ℕ)) → resized n s ((n, 0) ∷ fs) ≡ (n, s) ∷ fs
unfolding resized
resized_new n s fs = ground arith

removed_written :
    (d : Disk) (s : ℕ)
    → IsFresh d
    → without d.made (resized d.made s ((d.made, 0) ∷ d.files)) ≡ d.files
removed_written d s h =
    rw (resized_new d.made s d.files) (without-new d.made s d.made d.files h (omega arith))

jpeg_wrote-Adds :
    (fails : Bool) (wrote : Option ℕ) (d : Disk)
    → IsFresh d
    → Adds d
        (jpeg_wrote fails d.made wrote (create_temp d)).0
        (jpeg_wrote fails d.made wrote (create_temp d)).1
unfolding create_temp jpeg_wrote write_file remove
jpeg_wrote-Adds fails none d h = (removed_new d h, omega arith)
jpeg_wrote-Adds true (some s) d h = (removed_written d s h, omega arith)
jpeg_wrote-Adds false (some s) d h = (s, resized_new d.made s d.files, omega arith, omega arith)

ffmpeg_wrote-Adds :
    (fails : Bool) (wrote : Option ℕ) (d : Disk)
    → IsFresh d
    → Adds d
        (ffmpeg_wrote fails d.made wrote (create_temp d)).0
        (ffmpeg_wrote fails d.made wrote (create_temp d)).1
unfolding create_temp ffmpeg_wrote write_file remove
ffmpeg_wrote-Adds fails none d h = (removed_new d h, omega arith)
ffmpeg_wrote-Adds fails (some s) d h = elim (Bool-cases (fails || s == 0)) [
  | inl empty ↦ rw empty (removed_written d s h, omega arith)
  | inr fine ↦ rw fine (s, resized_new d.made s d.files, omega arith, omega arith)
]

run_ffmpeg-Adds :
    (stat_fails : ℕ → Bool) (e : Encoder) (q : ℕ) (d : Disk)
    → IsFresh d
    → Adds d (run_ffmpeg stat_fails e q d).0 (run_ffmpeg stat_fails e q d).1
unfolding run_ffmpeg
run_ffmpeg-Adds stat_fails e q d h = elim (Bool-cases (e.create_fails d.made)) [
  | inl fails ↦ rw fails (refl, omega arith)
  | inr made ↦ rw made (ffmpeg_wrote-Adds (stat_fails d.made) (e.write q d.made) d h)
]

encode_jpeg-Adds :
    (e : Encoder) (q : ℕ) (d : Disk)
    → IsFresh d
    → Adds d (encode_jpeg e q d).0 (encode_jpeg e q d).1
unfolding encode_jpeg
encode_jpeg-Adds e q d h = elim (Bool-cases (e.create_fails d.made)) [
  | inl fails ↦ rw fails (refl, omega arith)
  | inr made ↦ rw made (jpeg_wrote-Adds (e.close_fails d.made) (e.write q d.made) d h)
]

-- What an encoder does to the disk at every quality.
pub data IsTidy (run : ℕ → Disk → Disk × Outcome) : Type 0 where
  tidy : ((q : ℕ) (d : Disk) → IsFresh d → Adds d (run q d).0 (run q d).1) → IsTidy run

pub run_ffmpeg-IsTidy : (stat_fails : ℕ → Bool) (e : Encoder) → IsTidy (run_ffmpeg stat_fails e)
run_ffmpeg-IsTidy stat_fails e = tidy (run_ffmpeg-Adds stat_fails e)

pub encode_jpeg-IsTidy : (e : Encoder) → IsTidy (encode_jpeg e)
encode_jpeg-IsTidy e = tidy (encode_jpeg-Adds e)

pub without-second :
    (p t n s m : ℕ) (fs : List (ℕ × ℕ))
    → All (λ f. f.0 < m) fs
    → m ≤ p
    → p < n
    → without p ((n, s) ∷ (p, t) ∷ fs) ≡ (n, s) ∷ fs
unfolding without
without-second p t n s m fs h le lt = ground (arith, without-fresh p m fs h le)

pub size_in-new : (n s : ℕ) (fs : List (ℕ × ℕ)) → size_in n ((n, s) ∷ fs) ≡ s
unfolding size_in
size_in-new n s fs = ground arith
