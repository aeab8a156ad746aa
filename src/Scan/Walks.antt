-- ===== src/Scan/Walks.antt =====
-- What a walk over the sources keeps (internal/scan/scan.go).
use tgup.Prelude.{
  ℕ, zero, suc, ◌≡◌, refl, inl, inr, true, Option, none, some, List, [], ◌∷◌, Bool-cases,
  Option-cases,
}
use tgup.Prelude.Text.{Text, to_lower, trim_space}
use tgup.Scan.Model.{Kind}
use tgup.Scan.Filter.{is_empty, build_ext_set, text_in, ext_allowed, detect_kind}
use tgup.Scan.Discover.{
  Options, FileInfo, FileSystem, Walk, Walked, ok, failed, out_of_fuel, and_then, append_at,
  append_resolved, append_kind, maybe_append_item, visit_info, visit_target, visit, visit_all,
  visit_entries, dir_key, scan_dir, scan_info, scan_target, scan_found, scan_path, scan_rooted,
  scan_source, scan_sources, source_root, Rooted, rooted_at, no_root,
}

-- What a walk that succeeds comes to satisfies `P`; `O` says of running out of fuel.
abbrev pub Holds : (Walk → Type 0) → Type 0 → Walked → Type 0
Holds P O (ok w) = P w
Holds P O (failed e) = Unit
Holds P O out_of_fuel = O

and_then-Holds :
    (P : Walk → Type 0) (O : Type 0) (r : Walked) (k : Walk → Walked)
    → Holds P O r
    → ((w : Walk) → P w → Holds P O (k w))
    → Holds P O (and_then r k)
unfolding and_then
and_then-Holds P O (ok w) k h step = step w h
and_then-Holds P O (failed e) k h step = tt
and_then-Holds P O out_of_fuel k h step = h

-- What every walk of a source keeps: appending an item of a kind, and remembering a directory.
pub record Keeps (fs : FileSystem) (opts : Options) (src_root : Text) (include exclude : List Text)
    (P : Walk → Type 0) : Type 0 where
  pub appends :
      (w : Walk) (path abs_path : Text) (kind : Kind) (info : FileInfo)
      → ext_allowed (to_lower (fs.ext path)) include exclude ≡ true
      → detect_kind (to_lower (fs.ext path)) ≡ some kind
      → P w
      → P (append_at fs opts src_root include exclude kind info abs_path w)
  pub marks : (w : Walk) (key : Text) → P w → P (record w { seen_dirs = key ∷ w.seen_dirs })

module _ (fs : FileSystem) (opts : Options) (src_root : Text) (include exclude : List Text)
    (P : Walk → Type 0) (O : Type 0) (keeps : Keeps fs opts src_root include exclude P) where
  append_kind-Holds :
      (path : Text) (info : FileInfo) (kind : Option Kind) (w : Walk)
      → ext_allowed (to_lower (fs.ext path)) include exclude ≡ true
      → detect_kind (to_lower (fs.ext path)) ≡ kind
      → P w
      → Holds P O (append_kind fs opts src_root include exclude path info kind w)
  unfolding append_kind append_resolved
  append_kind-Holds path info none w allowed e h = h
  append_kind-Holds path info (some kind) w allowed e h = elim (Option-cases (fs.abs path)) [
    | inl lost ↦ rw lost tt
    | inr (abs_path, given) ↦ rw given (keeps.appends w path abs_path kind info allowed e h)
  ]

  maybe_append_item-Holds :
      (path : Text) (info : FileInfo) (w : Walk)
      → P w
      → Holds P O (maybe_append_item fs opts src_root include exclude path info w)
  unfolding maybe_append_item
  maybe_append_item-Holds path info w h = elim (Bool-cases info.is_regular) [
    | inl regular ↦
        simp regular (elim (Bool-cases (ext_allowed (to_lower (fs.ext path)) include exclude)) [
          | inl allowed ↦
              rw allowed (
                append_kind-Holds path info (detect_kind (to_lower (fs.ext path))) w allowed refl h)
          | inr blocked ↦ rw blocked h
        ])
    | inr special ↦ simp special h
  ]

  module _ (recurse : Text → Walk → Walked)
      (walks : (path : Text) (w : Walk) → P w → Holds P O (recurse path w)) where
    pub visit_info-Holds :
        (child : Text) (info : FileInfo) (w : Walk)
        → P w
        → Holds P O (visit_info fs opts src_root include exclude recurse child info w)
    unfolding visit_info
    visit_info-Holds child info w h = elim (Bool-cases info.is_dir) [
      | inl dir ↦ simp dir (elim (Bool-cases opts.recursive) [
        | inl deep ↦ simp deep (walks child w h)
        | inr flat ↦ simp flat h
      ])
      | inr file ↦ simp file (maybe_append_item-Holds child info w h)
    ]

    visit-Holds :
        (child : Text) (info : Option FileInfo) (w : Walk)
        → P w
        → Holds P O (visit fs opts src_root include exclude recurse child info w)
    unfolding visit visit_target
    visit-Holds child none w h = tt
    visit-Holds child (some info) w h = elim (Bool-cases info.is_symlink) [
      | inl link ↦ simp link (elim (Bool-cases opts.follow_symlinks) [
        | inl follow ↦ simp follow (elim (Option-cases (fs.stat child)) [
          | inl broken ↦ rw broken h
          | inr (target, there) ↦ rw there (visit_info-Holds child target w h)
        ])
        | inr stay ↦ simp stay h
      ])
      | inr plain ↦ simp plain (visit_info-Holds child info w h)
    ]

    visit_all-Holds :
        (path : Text) (names : List Text) (w : Walk)
        → P w
        → Holds P O (visit_all fs opts src_root include exclude recurse path names w)
    unfolding visit_all
    visit_all-Holds path [] w h = h
    visit_all-Holds path (name ∷ names) w h =
        and_then-Holds P O _ _ (visit-Holds (fs.join path name) (fs.lstat (fs.join path name)) w h)
          (λ w' h'. visit_all-Holds path names w' h')

    pub visit_entries-Holds :
        (path : Text) (names : Option (List Text)) (w : Walk)
        → P w
        → Holds P O (visit_entries fs opts src_root include exclude recurse path names w)
    unfolding visit_entries
    visit_entries-Holds path none w h = tt
    visit_entries-Holds path (some names) w h = visit_all-Holds path names w h

  module _ (fuel : ℕ)
      (dirs : (path : Text) (w : Walk)
        → P w
        → Holds P O (scan_dir fs opts src_root include exclude fuel path w)) where
    scan_info-Holds :
        (path : Text) (info : FileInfo) (w : Walk)
        → P w
        → Holds P O (scan_info fs opts src_root include exclude fuel path info w)
    unfolding scan_info
    scan_info-Holds path info w h = elim (Bool-cases info.is_dir) [
      | inl dir ↦ simp dir (dirs path w h)
      | inr file ↦ simp file (maybe_append_item-Holds path info w h)
    ]

    scan_path-Holds :
        (path : Text) (w : Walk)
        → P w
        → Holds P O (scan_path fs opts src_root include exclude fuel path w)
    unfolding scan_path scan_found scan_target
    scan_path-Holds path w h = elim (Option-cases (fs.lstat path)) [
      | inl missing ↦ rw missing tt
      | inr (info, there) ↦ rw there (elim (Bool-cases info.is_symlink) [
        | inl link ↦ simp link (elim (Bool-cases opts.follow_symlinks) [
          | inl follow ↦ simp follow (elim (Option-cases (fs.stat path)) [
            | inl broken ↦ rw broken tt
            | inr (target, reached) ↦ rw reached (scan_info-Holds path target w h)
          ])
          | inr stay ↦ simp stay h
        ])
        | inr plain ↦ simp plain (scan_info-Holds path info w h)
      ])
    ]

module _ (fs : FileSystem) (opts : Options) (src_root : Text) (include exclude : List Text)
    (P : Walk → Type 0) (keeps : Keeps fs opts src_root include exclude P) where
  -- A walk of a directory that succeeds keeps what its steps keep.
  pub scan_dir-Holds :
      (fuel : ℕ) (path : Text) (w : Walk)
      → P w
      → Holds P Unit (scan_dir fs opts src_root include exclude fuel path w)
  unfolding scan_dir
  scan_dir-Holds zero path w h = tt
  scan_dir-Holds (suc fuel) path w h =
      elim (Bool-cases (text_in (dir_key fs opts path) w.seen_dirs)) [
        | inl seen ↦ rw (scan_dir, seen) h
        | inr new ↦
            rw (scan_dir, new)
              (visit_entries-Holds fs opts src_root include exclude P Unit keeps
                (scan_dir fs opts src_root include exclude fuel) (scan_dir-Holds fuel) path
                (fs.read_dir path) _ (keeps.marks w _ h))
      ]

module _ (fs : FileSystem) (opts : Options) (P : Walk → Type 0) (O : Type 0)
    (keeps : (root : Text)
      → Keeps fs opts root (build_ext_set opts.include_ext) (build_ext_set opts.exclude_ext) P)
    (fuel : ℕ)
    (dirs : (root path : Text) (w : Walk)
      → P w
      → Holds P O (
          scan_dir fs opts root
            (build_ext_set opts.include_ext)
            (build_ext_set opts.exclude_ext)
            fuel
            path
            w)) where
  scan_rooted-Holds :
      (path : Text) (r : Rooted) (w : Walk) → P w → Holds P O (scan_rooted fs opts fuel path r w)
  unfolding scan_rooted
  scan_rooted-Holds path (no_root e) w h = tt
  scan_rooted-Holds path (rooted_at r) w h =
      scan_path-Holds fs opts r (build_ext_set opts.include_ext) (build_ext_set opts.exclude_ext) P
        O (keeps r) fuel (dirs r) path w h

  scan_source-Holds :
      (source : Text) (path : Option Text) (w : Walk)
      → P w
      → Holds P O (scan_source fs opts fuel source path w)
  unfolding scan_source
  scan_source-Holds source none w h = tt
  scan_source-Holds source (some path) w h =
      scan_rooted-Holds path (source_root fs path opts.follow_symlinks) w h

  -- The walks of all sources keep what their steps keep.
  pub scan_sources-Holds :
      (srcs : List Text) (w : Walk) → P w → Holds P O (scan_sources fs opts fuel srcs w)
  unfolding scan_sources
  scan_sources-Holds [] w h = h
  scan_sources-Holds (src ∷ srcs) w h = elim (Bool-cases (is_empty (trim_space src))) [
    | inl blank ↦ rw blank (scan_sources-Holds srcs w h)
    | inr some_source ↦ rw some_source (
        and_then-Holds P O _ _ (scan_source-Holds (trim_space src) (fs.abs (trim_space src)) w h)
          (λ w' h'. scan_sources-Holds srcs w' h'))
  ]
