-- ===== src/Scan/Returns.antt =====
-- Discovery comes to an end, links that form a cycle included (internal/scan/scan.go: `scanDir`
-- and its set of directories seen).
use tgup.Prelude.{
  ℕ, zero, suc, ◌-◌, ◌≤◌, ◌<◌, ◌≡◌, ◌≢◌, refl, inl, inr, true, false, not, some, List, [], ◌∷◌,
  count_if, count_if-imp, length, count_if-le, arith, Bool-cases, Option-cases,
}
use tgup.Prelude.Text.{Text, text_eq, text_eq_iff, text_eq_refl}
use tgup.Scan.Model.{Kind}
use tgup.Scan.Filter.{is_empty, text_in}
use tgup.Plan.Sort.{Sorter}
use tgup.Scan.Discover.{
  Options, FileInfo, FileSystem, Walk, Walked, ok, failed, out_of_fuel, append_at, dedup_key,
  dir_key, scan_dir, sorted_items, empty_walk, endless, discover,
}
use tgup.Scan.Walks.{Holds, Keeps, visit_entries-Holds, scan_sources-Holds}

-- The directories of a list that a walk has not seen.
abbrev pub unseen : List Text → Walk → ℕ
unseen dirs w = count_if (λ d. not (text_in d w.seen_dirs)) dirs

unseen-mark :
    (dirs : List Text) (w : Walk) (key : Text)
    → unseen dirs (record w { seen_dirs = key ∷ w.seen_dirs }) ≤ unseen dirs w
unfolding text_in
unseen-mark dirs w key = count_if-imp _ _ dirs (λ d e. ground arith)

-- Marking a directory of the list that was not seen leaves fewer.
unseen-new :
    (dirs : List Text) (w : Walk) (key : Text)
    → text_in key dirs ≡ true
    → text_in key w.seen_dirs ≡ false
    → unseen dirs (record w { seen_dirs = key ∷ w.seen_dirs }) < unseen dirs w
unfolding text_in
unseen-new [] w key h new = cc
unseen-new (d ∷ dirs) w key h new = elim (Bool-cases (text_eq key d)) [
  | inl here ↦
      let same : key ≡ d = (text_eq_iff key d).0 here in
      let a : text_eq d key ≡ true = rw same (text_eq_refl d) in
      let b : text_in d w.seen_dirs ≡ false = rw (← same) new in
      rw (a, b) (omega (arith, unseen-mark dirs w key))
  | inr later ↦
      let rest : text_in key dirs ≡ true = ground arith in
      let less = unseen-new dirs w key rest new in
      elim (Bool-cases (text_eq d key)) [
        | inl a ↦ elim (Bool-cases (text_in d w.seen_dirs)) [
          | inl b ↦ rw (a, b) (omega arith)
          | inr b ↦ rw (a, b) (omega arith)
        ]
        | inr a ↦ elim (Bool-cases (text_in d w.seen_dirs)) [
          | inl b ↦ rw (a, b) (omega arith)
          | inr b ↦ rw (a, b) (omega arith)
        ]
      ]
]

Holds-imp :
    (P Q : Walk → Type 0) (O : Type 0)
    → ((w : Walk) → P w → Q w)
    → (r : Walked) → Holds P O r
    → Holds Q O r
Holds-imp P Q O f (ok w) h = f w h
Holds-imp P Q O f (failed e) h = tt
Holds-imp P Q O f out_of_fuel h = h

append_at-seen_dirs :
    (fs : FileSystem) (opts : Options) (root : Text) (include exclude : List Text) (kind : Kind)
    (info : FileInfo) (abs_path : Text) (w : Walk)
    → (append_at fs opts root include exclude kind info abs_path w).seen_dirs ≡ w.seen_dirs
unfolding append_at
append_at-seen_dirs fs opts root include exclude kind info abs_path w =
    elim (Bool-cases (text_in (dedup_key fs abs_path) w.seen_files)) [
      | inl known ↦ rw known refl
      | inr new ↦ rw new refl
    ]

sorted-ends :
    (P : Walk → Type 0) (sorter : Sorter) (r : Walked)
    → Holds P ⊥ r
    → sorted_items sorter r ≢ endless
unfolding sorted_items
sorted-ends P sorter (ok w) h e = cc
sorted-ends P sorter (failed x) h e = cc
sorted-ends P sorter out_of_fuel h e = h

module _ (fs : FileSystem) (opts : Options) (dirs : List Text)
    (readable : (path : Text) (names : List Text)
      → fs.read_dir path ≡ some names
      → text_in (dir_key fs opts path) dirs ≡ true) where
  -- At most so many directories are left.
  abbrev Left : ℕ → Walk → Type 0
  Left n w = unseen dirs w ≤ n

  Left-Keeps :
      (n : ℕ) (root : Text) (include exclude : List Text)
      → Keeps fs opts root include exclude (Left n)
  Left-Keeps n root include exclude = record {
    appends = λ w path abs_path kind info allowed is_kind h.
        rw (append_at-seen_dirs fs opts root include exclude kind info abs_path w) h;
    marks = λ w key h. omega (arith, unseen-mark dirs w key);
  }

  scan_dir-Left :
      (root : Text) (include exclude : List Text) (fuel n : ℕ) (path : Text) (w : Walk)
      → n < fuel
      → Left n w
      → Holds (Left n) ⊥ (scan_dir fs opts root include exclude fuel path w)
  unfolding scan_dir
  scan_dir-Left root include exclude zero n path w enough h = absurd (omega arith)
  scan_dir-Left root include exclude (suc fuel) n path w enough h =
      elim (Bool-cases (text_in (dir_key fs opts path) w.seen_dirs)) [
        | inl seen ↦ rw (scan_dir, seen) h
        | inr new ↦
            rw (scan_dir, new)
              (elim (Option-cases (fs.read_dir path)) [
                | inl unreadable ↦ rw unreadable tt
                | inr (names, e) ↦
                    let less =
                      unseen-new dirs w (dir_key fs opts path) (readable path names e) new in
                    Holds-imp (Left (n - 1)) (Left n) ⊥ (λ v k. omega arith) _
                      (visit_entries-Holds fs opts root include exclude (Left (n - 1)) ⊥
                        (Left-Keeps (n - 1) root include exclude)
                        (scan_dir fs opts root include exclude fuel)
                        (λ path' v k.
                          scan_dir-Left root include exclude fuel (n - 1) path' v (omega arith) k)
                        path (fs.read_dir path) _ (omega arith))
              ])
      ]

  -- Where every directory that can be read has its key in a finite list, more fuel than that list is
  -- long is enough: discovery returns items or an error, whatever cycles links form.
  pub discover-returns :
      (sorter : Sorter) (fuel : ℕ) → length dirs < fuel → discover fs sorter fuel opts ≢ endless
  unfolding discover
  discover-returns sorter fuel enough = elim (Bool-cases (is_empty opts.src)) [
    | inl no_source ↦ rw no_source (λ e. cc)
    | inr sources ↦ rw sources (
        sorted-ends (Left (length dirs)) sorter _ (
          scan_sources-Holds fs opts (Left (length dirs)) ⊥
            (λ root. Left-Keeps (length dirs) root _ _) fuel
            (λ root path w h. scan_dir-Left root _ _ fuel (length dirs) path w enough h) opts.src
            empty_walk (count_if-le _ dirs)))
  ]
