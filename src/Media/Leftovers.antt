-- ===== src/Media/Leftovers.antt =====
-- What the searches of a quality leave on the disk (internal/media/image.go:
-- `searchBestFFmpegQ`, `searchBestStdlibQ`).
use tgup.Prelude.{
  ℕ, zero, suc, ◌+◌, ◌/◌, ◌≤◌, ◌<◌, ◌≡◌, refl, ◌⊎◌, inl, inr, Bool, true, Option, none, some, List,
  ◌∷◌, ltb, leb, arith, All-imp, Bool-cases,
}
use tgup.Media.Fit.{max_photo_bytes}
use tgup.Media.Temp.{Disk, Outcome, kept, failed, Failure, remove, file_size}
use tgup.Media.Search.{
  Attempt, broken, fitted, too_large, clean_up, finish, judged, attempt, search_down, search_ffmpeg,
  search_up, search_stdlib,
}
use tgup.Media.Tidy.{IsFresh, Adds, without-new, without-second, size_in-new, IsTidy, tidy}

-- The files of `base` are there still, and on top of them at most the file that is named, of which
-- and of whose size `P` holds.
pub data Holds (P : ℕ → ℕ → Type 0) (base : Disk) : Option ℕ → Disk → Type 0 where
  nothing : (d : Disk) → d.files ≡ base.files → base.made ≤ d.made → Holds P base none d
  one_file :
      (d : Disk) (n s : ℕ)
      → d.files ≡ (n, s) ∷ base.files
      → base.made ≤ n
      → n < d.made
      → P n s
      → Holds P base (some n) d

-- The size is within the limit, unless it cannot be read.
abbrev pub Fits : (ℕ → Bool) → ℕ → ℕ → Type 0
Fits stat_fails n s = (s ≤ max_photo_bytes) ⊎ (stat_fails n ≡ true)

abbrev pub path_of : Outcome → Option ℕ
path_of (kept n) = some n
path_of (failed f) = none

module _ (base : Disk) (fresh : IsFresh base) where
  pub Holds-IsFresh :
      {P : ℕ → ℕ → Type 0} (best : Option ℕ) (d : Disk) → Holds P base best d → IsFresh d
  Holds-IsFresh none d (nothing _ same le) =
      rw same (All-imp _ _ (λ f h. omega arith) base.files fresh)
  Holds-IsFresh (some n) d (one_file _ _ s same le lt ok) =
      rw same (lt, All-imp _ _ (λ f h. omega arith) base.files fresh)

  -- The best file so far goes, from below a newer one.
  pub clean_up-Holds :
      {P Q : ℕ → ℕ → Type 0} (best : Option ℕ) (d d' : Disk) (n s : ℕ)
      → Holds P base best d
      → d'.files ≡ (n, s) ∷ d.files
      → d.made ≤ n
      → n < d'.made
      → Q n s
      → Holds Q base (some n) (clean_up best d')
  unfolding clean_up remove
  clean_up-Holds none d d' n s (nothing _ same le) more low high small =
      one_file d' n s (rw (more, same) refl) (omega arith) high small
  clean_up-Holds (some p) d d' n s (one_file _ _ t same le lt ok) more low high small =
      one_file (clean_up (some p) d') n s
        (rw (more, same) (without-second p t n s base.made base.files fresh le (omega arith)))
        (omega arith) high small

  clean_up-nothing :
      {P : ℕ → ℕ → Type 0} (best : Option ℕ) (d d' : Disk)
      → Holds P base best d
      → d'.files ≡ d.files
      → d.made ≤ d'.made
      → Holds P base none (clean_up best d')
  unfolding clean_up remove
  clean_up-nothing none d d' (nothing _ same le) more grown =
      nothing d' (rw (more, same) refl) (omega arith)
  clean_up-nothing (some p) d d' (one_file _ _ t same le lt ok) more grown =
      nothing (clean_up (some p) d')
        (rw (more, same) (without-new p t base.made base.files fresh le)) (omega arith)

  pub keep-Holds :
      {P : ℕ → ℕ → Type 0} (best : Option ℕ) (d d' : Disk)
      → Holds P base best d
      → d'.files ≡ d.files
      → d.made ≤ d'.made
      → Holds P base best d'
  keep-Holds none d d' (nothing _ same le) more grown =
      nothing d' (rw (more, same) refl) (omega arith)
  keep-Holds (some p) d d' (one_file _ _ t same le lt ok) more grown =
      one_file d' p t (rw (more, same) refl) le (omega arith) ok

module _ (stat_fails : ℕ → Bool) (base : Disk) (fresh : IsFresh base) where
  -- What one attempt came to, and what it leaves.
  Leaves : Option ℕ → Disk → Attempt → Type 0
  Leaves best d a =
      ((f : Failure) × (a ≡ broken f) × Holds (Fits stat_fails) base none d)
      ⊎ ((n : ℕ) × (a ≡ fitted n) × Holds (Fits stat_fails) base (some n) d)
      ⊎ (a ≡ too_large) × Holds (Fits stat_fails) base best d

  size_of_new :
      (d : Disk) (n s : ℕ) (fs : List (ℕ × ℕ))
      → d.files ≡ (n, s) ∷ fs
      → leb (file_size stat_fails n d) max_photo_bytes ≡ true
      → (s ≤ max_photo_bytes) ⊎ (stat_fails n ≡ true)
  unfolding file_size
  size_of_new d n s fs e h = elim (Bool-cases (stat_fails n)) [
    | inl unread ↦ inr unread
    | inr known ↦ inl (ground (arith, size_in-new n s fs))
  ]

  judged-Leaves :
      (best : Option ℕ) (d d' : Disk) (o : Outcome)
      → Holds (Fits stat_fails) base best d
      → Adds d d' o
      → Leaves best (judged stat_fails best d' o).0 (judged stat_fails best d' o).1
  unfolding judged Leaves remove
  judged-Leaves best d d' (failed f) h (more, grown) =
      inl (f, refl, clean_up-nothing base fresh best d d' h more grown)
  judged-Leaves best d d' (kept n) h (s, more, low, high) =
      elim (Bool-cases (leb (file_size stat_fails n d') max_photo_bytes)) [
        | inl fits ↦ rw fits (
            inr (
              inl (
                n,
                refl,
                clean_up-Holds base fresh best d d' n s h more low high
                    (size_of_new d' n s d.files more fits),
              )))
        | inr large ↦ rw large (
            inr (
              inr (
                refl,
                keep-Holds base fresh best d (remove n d') h
                    (rw more
                      (without-new n s d.made d.files (Holds-IsFresh base fresh best d h) low))
                    (omega arith),
              )))
      ]

  finish-Holds :
      (best : Option ℕ) (d : Disk)
      → Holds (Fits stat_fails) base best d
      → Holds (Fits stat_fails) base (path_of (finish best d).1) (finish best d).0
  unfolding finish
  finish-Holds none d h = h
  finish-Holds (some n) d h = h

  module _ (run : ℕ → Disk → Disk × Outcome) (ok : IsTidy run) where
    attempt-Leaves :
        (best : Option ℕ) (q : ℕ) (d : Disk)
        → Holds (Fits stat_fails) base best d
        → Leaves best (attempt stat_fails run best q d).0 (attempt stat_fails run best q d).1
    unfolding attempt
    attempt-Leaves best q d h = elim ok [
      | tidy adds ↦
          judged-Leaves best d (run q d).0 (run q d).1 h
            (adds q d (Holds-IsFresh base fresh best d h))
    ]

    search_up-Holds :
        (fuel low high : ℕ) (best : Option ℕ) (d : Disk)
        → Holds (Fits stat_fails) base best d
        → Holds
            (Fits stat_fails)
            base
            (path_of (search_up stat_fails run fuel low high best d).1)
            (search_up stat_fails run fuel low high best d).0
    unfolding search_up Leaves
    search_up-Holds zero low high best d h = finish-Holds best d h
    search_up-Holds (suc fuel) low high best d h = elim (Bool-cases (ltb high low)) [
      | inl over ↦ rw (search_up, over) (finish-Holds best d h)
      | inr on ↦
          rw (search_up, on)
            (elim (attempt-Leaves best ((low + high + 1) / 2) d h) [
              | inl (f, e, k) ↦ rw e k
              | inr (inl (n, e, k)) ↦ rw e (search_up-Holds fuel _ high (some n) _ k)
              | inr (inr (e, k)) ↦ rw e (search_up-Holds fuel low _ best _ k)
            ])
    ]

    search_down-Holds :
        (fuel low high : ℕ) (best : Option ℕ) (d : Disk)
        → Holds (Fits stat_fails) base best d
        → Holds
            (Fits stat_fails)
            base
            (path_of (search_down stat_fails run fuel low high best d).1)
            (search_down stat_fails run fuel low high best d).0
    unfolding search_down Leaves
    search_down-Holds zero low high best d h = finish-Holds best d h
    search_down-Holds (suc fuel) low high best d h = elim (Bool-cases (ltb high low)) [
      | inl over ↦ rw (search_down, over) (finish-Holds best d h)
      | inr on ↦
          rw (search_down, on)
            (elim (attempt-Leaves best ((low + high) / 2) d h) [
              | inl (f, e, k) ↦ rw e k
              | inr (inl (n, e, k)) ↦ rw e (search_down-Holds fuel low _ (some n) _ k)
              | inr (inr (e, k)) ↦ rw e (search_down-Holds fuel _ high best _ k)
            ])
    ]

    pub search_ffmpeg-Holds :
        (d : Disk)
        → Holds (Fits stat_fails) base none d
        → Holds
            (Fits stat_fails)
            base
            (path_of (search_ffmpeg stat_fails run d).1)
            (search_ffmpeg stat_fails run d).0
    unfolding search_ffmpeg Leaves
    search_ffmpeg-Holds d h = elim (attempt-Leaves none 1 d h) [
      | inl (f, e, k) ↦ rw (search_ffmpeg, e) k
      | inr (inl (n, e, k)) ↦ rw (search_ffmpeg, e) k
      | inr (inr (e, k)) ↦ rw (search_ffmpeg, e) (search_down-Holds 30 2 31 none _ k)
    ]

    pub search_stdlib-Holds :
        (d : Disk)
        → Holds (Fits stat_fails) base none d
        → Holds
            (Fits stat_fails)
            base
            (path_of (search_stdlib stat_fails run d).1)
            (search_stdlib stat_fails run d).0
    unfolding search_stdlib Leaves
    search_stdlib-Holds d h = elim (attempt-Leaves none 100 d h) [
      | inl (f, e, k) ↦ rw (search_stdlib, e) k
      | inr (inl (n, e, k)) ↦ rw (search_stdlib, e) k
      | inr (inr (e, k)) ↦ rw (search_stdlib, e) (search_up-Holds 99 1 99 none _ k)
    ]
