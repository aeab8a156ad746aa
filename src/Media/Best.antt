-- ===== src/Media/Best.antt =====
-- The quality that the searches find (internal/media/image.go: `searchBestFFmpegQ`,
-- `searchBestStdlibQ`), for an encoder that does not fail and whose sizes follow the quality.
use tgup.Prelude.{
  ℕ, zero, suc, ◌+◌, ◌-◌, ◌/◌, ◌≤◌, ◌<◌, ◌≡◌, refl, ◌⊎◌, inl, inr, Bool, true, false, Option, none,
  some, ◌∷◌, ltb, leb, arith, Bool-cases,
}
use tgup.Media.Fit.{max_photo_bytes}
use tgup.Media.Temp.{
  Disk, Encoder, Outcome, kept, failed, cannot_fit, remove, file_size, encode_jpeg, jpeg_wrote,
  create_temp, write_file,
}
use tgup.Media.Search.{
  Attempt, fitted, too_large, finish, judged, attempt, search_up, search_stdlib,
}
use tgup.Media.Tidy.{IsFresh, without-new, size_in-new, resized_new}
use tgup.Media.Leftovers.{Holds, nothing, Holds-IsFresh, clean_up-Holds, keep-Holds}

-- Every encoding succeeds and its size depends on the quality alone; every size can be read.
pub data Encodes (size : ℕ → ℕ) (stat_fails : ℕ → Bool) (run : ℕ → Disk → Disk × Outcome)
    : Type 0 where
  encodes :
      ((n : ℕ) → stat_fails n ≡ false)
      → ((q : ℕ) (d : Disk)
          → IsFresh d
          → ((run q d).1 ≡ kept d.made)
            × ((run q d).0.files ≡ (d.made, size q) ∷ d.files)
            × ((run q d).0.made ≡ suc d.made))
      → Encodes size stat_fails run

module _ (size : ℕ → ℕ) (stat_fails : ℕ → Bool) (base : Disk) (fresh : IsFresh base) where
  -- The best file so far, if any, has this quality.
  abbrev pub Of : ℕ → ℕ → ℕ → Type 0
  Of q n s = (s ≡ size q) × (size q ≤ max_photo_bytes)

  -- An attempt at quality `q`.
  Tried : ℕ → ℕ → Option ℕ → Disk → Attempt → Type 0
  Tried p q best d a =
      ((n : ℕ) × (a ≡ fitted n) × Holds (Of q) base (some n) d × (size q ≤ max_photo_bytes))
      ⊎ (a ≡ too_large) × Holds (Of p) base best d × (max_photo_bytes < size q)

  new_size :
      (d d' : Disk) (s : ℕ)
      → stat_fails d.made ≡ false
      → d'.files ≡ (d.made, s) ∷ d.files
      → file_size stat_fails d.made d' ≡ s
  unfolding file_size
  new_size d d' s reads more = rw (reads, more) (size_in-new d.made s d.files)

  judged-Tried :
      (p q : ℕ) (best : Option ℕ) (d d' : Disk)
      → stat_fails d.made ≡ false
      → Holds (Of p) base best d
      → d'.files ≡ (d.made, size q) ∷ d.files
      → d'.made ≡ suc d.made
      → Tried p q best
          (judged stat_fails best d' (kept d.made)).0
          (judged stat_fails best d' (kept d.made)).1
  unfolding judged remove Tried
  judged-Tried p q best d d' reads h more next =
      elim (Bool-cases (leb (file_size stat_fails d.made d') max_photo_bytes)) [
        | inl fits ↦
            let small : size q ≤ max_photo_bytes =
              ground (arith, new_size d d' (size q) reads more) in
            rw fits (
              inl (
                d.made,
                refl,
                clean_up-Holds base fresh best d d' d.made (size q) h more (omega arith)
                    (omega arith) (refl, small),
                small,
              ))
        | inr large ↦ rw large (
            inr (
              refl,
              keep-Holds base fresh best d (remove d.made d') h
                  (rw more (
                    without-new d.made (size q) d.made d.files (Holds-IsFresh base fresh best d h)
                      (omega arith)))
                  (omega arith),
              ground (arith, new_size d d' (size q) reads more),
            ))
      ]

  attempt-Tried :
      (run : ℕ → Disk → Disk × Outcome)
      → Encodes size stat_fails run
      → (p q : ℕ) (best : Option ℕ) (d : Disk) → Holds (Of p) base best d
      → Tried p q best (attempt stat_fails run best q d).0 (attempt stat_fails run best q d).1
  unfolding attempt
  attempt-Tried run (encodes reads writes) p q best d h =
      let (is_kept, more, next) = writes q d (Holds-IsFresh base fresh best d h) in
      rw is_kept (judged-Tried p q best d (run q d).0 (reads d.made) h more next)

  -- A file of the best quality from 1 to 100 that fits, or none where not even the worst does.
  pub data IsBest : Disk → Outcome → Type 0 where
    best_of :
        (d : Disk) (n q : ℕ)
        → 1 ≤ q
        → q ≤ 100
        → Holds (Of q) base (some n) d
        → ((r : ℕ) → r ≤ 100 → size r ≤ max_photo_bytes → r ≤ q)
        → IsBest d (kept n)
    none_fits :
        (d : Disk) → max_photo_bytes < size 1 → d.files ≡ base.files → IsBest d (failed cannot_fit)

  Start : Option ℕ → ℕ → Type 0
  Start none p = p ≡ 0
  Start (some n) p = 1 ≤ p

  finish-IsBest :
      (p high : ℕ) (best : Option ℕ) (d : Disk)
      → Start best p
      → p ≡ high
      → high ≤ 99
      → Holds (Of p) base best d
      → ((r : ℕ) → r ≤ 100 → size r ≤ max_photo_bytes → r ≤ high)
      → IsBest (finish best d).0 (finish best d).1
  unfolding finish Start
  finish-IsBest p high none d s e le (nothing _ same grown) above =
      none_fits d (worst (Bool-cases (leb (size 1) max_photo_bytes))) same
    where
      worst :
          (leb (size 1) max_photo_bytes ≡ true) ⊎ (leb (size 1) max_photo_bytes ≡ false)
          → max_photo_bytes < size 1
      worst (inl fits) = let k = above 1 (omega arith) (ground arith) in absurd (omega arith)
      worst (inr large) = ground arith
  finish-IsBest p high (some n) d s e le h above =
      best_of d n p s (omega arith) h (λ r small fits. let k = above r small fits in omega arith)

  cut_down :
      ((q r : ℕ) → q ≤ r → size q ≤ size r)
      → (r mid : ℕ) → size r ≤ max_photo_bytes
      → max_photo_bytes < size mid
      → r ≤ mid - 1
  cut_down mono r mid fits large = elim (Bool-cases (ltb r mid)) [
    | inl under ↦ ground arith
    | inr over ↦ let k = mono mid r (ground arith) in absurd (omega arith)
  ]

  search_up-IsBest :
      (run : ℕ → Disk → Disk × Outcome)
      → Encodes size stat_fails run
      → ((q r : ℕ) → q ≤ r → size q ≤ size r)
      → (fuel low high p : ℕ) (best : Option ℕ) (d : Disk) → Start best p
      → low ≡ suc p
      → high ≤ p + fuel
      → p ≤ high
      → high ≤ 99
      → Holds (Of p) base best d
      → ((r : ℕ) → r ≤ 100 → size r ≤ max_photo_bytes → r ≤ high)
      → IsBest
          (search_up stat_fails run fuel low high best d).0
          (search_up stat_fails run fuel low high best d).1
  unfolding search_up Tried Start
  search_up-IsBest run ok mono zero low high p best d s next enough le top h above =
      finish-IsBest p high best d s (omega arith) top h above
  search_up-IsBest run ok mono (suc fuel) low high p best d s next enough le top h above =
      elim (Bool-cases (ltb high low)) [
        | inl over ↦ rw (search_up, over) (finish-IsBest p high best d s (ground arith) top h above)
        | inr on ↦
            let inside : low ≤ high = ground arith in
            rw (search_up, on)
              (elim (attempt-Tried run ok p ((low + high + 1) / 2) best d h) [
                | inl (n, e, k, fits) ↦ rw e (
                    search_up-IsBest run ok mono fuel _ high ((low + high + 1) / 2) (some n) _
                      (omega arith) (omega arith) (omega arith) (omega arith) top k above)
                | inr (e, k, large) ↦ rw e (
                    search_up-IsBest run ok mono fuel low _ p best _ s next (omega arith)
                      (omega arith) (omega arith) k (λ r small fits. cut_down mono r _ fits large))
              ])
      ]

  -- For an encoder that does not fail, whose files can be read and are no smaller at a better
  -- quality, the search with the standard library returns a file of the best quality from 1 to
  -- 100 that fits the limit, as the one new file; it fails where not even quality 1 fits, and
  -- then leaves no file.
  pub search_stdlib-IsBest :
      (run : ℕ → Disk → Disk × Outcome)
      → Encodes size stat_fails run
      → ((q r : ℕ) → q ≤ r → size q ≤ size r)
      → IsBest (search_stdlib stat_fails run base).0 (search_stdlib stat_fails run base).1
  unfolding search_stdlib Tried Start
  search_stdlib-IsBest run ok mono =
      elim (attempt-Tried run ok 0 100 none base (nothing base refl (omega arith))) [
        | inl (n, e, k, fits) ↦
            rw (search_stdlib, e)
              (best_of _ n 100 (omega arith) (omega arith) k (λ r small fine. small))
        | inr (e, k, large) ↦
            rw (search_stdlib, e)
              (search_up-IsBest run ok mono 99 1 99 0 none _ refl refl (omega arith) (omega arith)
                (omega arith) k (λ r small fits. cut_down mono r 100 fits large))
      ]

-- The encoder of the standard library, where nothing fails.
pub encode_jpeg-Encodes :
    (size : ℕ → ℕ) (stat_fails : ℕ → Bool) (e : Encoder)
    → ((n : ℕ) → stat_fails n ≡ false)
    → ((n : ℕ) → e.create_fails n ≡ false)
    → ((n : ℕ) → e.close_fails n ≡ false)
    → ((q n : ℕ) → e.write q n ≡ some (size q))
    → Encodes size stat_fails (encode_jpeg e)
unfolding encode_jpeg jpeg_wrote create_temp write_file
encode_jpeg-Encodes size stat_fails e reads creates closes writes = encodes reads (λ q d fresh.
    rw (creates d.made, writes q d.made, closes d.made)
      (refl, resized_new d.made (size q) d.files, refl))
