-- ===== src/Scan/Found.antt =====
-- What discovery returns (internal/scan/scan.go: `Discover`).
use mathlib.Core.List.{Perm}
use mathlib.Core.Path.{subst, ◌∙◌}
use tgup.Prelude.{
  ℕ, suc, ◌≤◌, ◌≡◌, refl, inl, inr, Bool, true, false, not, ◌||◌, some, List, [], ◌∷◌, ◌++◌,
  if◌then◌else◌, All, All-append, All-imp, All-count_if, count_if-eq_zero, count_if,
  count_if-append, count_if-imp, Perm-count_if, arith, Bool-cases,
}
use tgup.Prelude.Text.{
  Text, text_eq, text_eq_refl, text_eq_iff, to_lower, text_ltb_irrefl, text_ltb_trans,
  text_ltb_negtrans,
}
use tgup.Scan.Model.{Kind, image, video, other, Item}
use tgup.Scan.Filter.{
  default_image_ext, default_video_ext, is_empty, build_ext_set, text_in, ext_allowed, detect_kind,
}
use tgup.Plan.Sort.{Sorter, SortedBy, IsStrictWeak}
use tgup.Scan.Discover.{
  Options, FileInfo, FileSystem, Walk, Walked, ok, failed, out_of_fuel, dedup_key, item_at,
  append_at, scan_sources, less_path, sorted_items, empty_walk, found, discover,
}
use tgup.Scan.Walks.{Holds, Keeps, scan_dir-Holds, scan_sources-Holds}

-- The extensions of a kind, and whether a test passes on one of a list.
unfoldable pub extensions_of : Kind → List Text
extensions_of image = default_image_ext
extensions_of video = default_video_ext
extensions_of other = []

unfoldable pub any_in : (Text → Bool) → List Text → Bool
any_in p [] = false
any_in p (t ∷ ts) = p t || any_in p ts

any_in_of :
    (p : Text → Bool) (t : Text) (ts : List Text)
    → text_in t ts ≡ true
    → p t ≡ true
    → any_in p ts ≡ true
unfolding any_in text_in
any_in_of p t [] h e = cc
any_in_of p t (u ∷ ts) h e = elim (Bool-cases (text_eq t u)) [
  | inl same ↦ rw (← (text_eq_iff t u).0 same, e) refl
  | inr differs ↦ ground (arith, any_in_of p t ts)
]

kind-extension :
    (ext : Text) (kind : Kind)
    → detect_kind ext ≡ some kind
    → text_in ext (extensions_of kind) ≡ true
unfolding detect_kind extensions_of
kind-extension ext image e = ground arith
kind-extension ext video e = ground arith
kind-extension ext other e = absurd (ground arith)

module _ (fs : FileSystem) (opts : Options) where
  path_key : Text → Text
  path_key path = if opts.follow_symlinks then path else dedup_key fs path

  -- The key of an item among `seenFiles`.
  item_key : Item → Text
  unfolding path_key
  item_key i = path_key i.path

  abbrev has_key : Text → Item → Bool
  has_key k i = text_eq k (item_key i)

  -- No two items have the same key, and every key was seen.
  record IsKeyed (w : Walk) : Type 0 where
    once : (k : Text) → count_if (has_key k) w.items ≤ 1
    seen : (k : Text) → text_in k w.seen_files ≡ false → count_if (has_key k) w.items ≡ 0

  item_at-key :
      (root : Text) (include exclude : List Text) (abs_path : Text) (kind : Kind) (info : FileInfo)
      → item_key (item_at fs opts root include exclude abs_path kind info) ≡ dedup_key fs abs_path
  unfolding item_key path_key item_at
  item_at-key root include exclude abs_path kind info = elim (Bool-cases opts.follow_symlinks) [
    | inl follow ↦ simp follow refl
    | inr stay ↦ simp stay refl
  ]

  -- The items with a key, after one more.
  count-snoc :
      (k : Text) (items : List Item) (i : Item) (key : Text)
      → item_key i ≡ key
      → count_if (has_key k) (items ++ i ∷ [])
        ≡ (if text_eq k key then suc (count_if (has_key k) items) else count_if (has_key k) items)
  count-snoc k items i key e = elim (Bool-cases (text_eq k key)) [
    | inl same ↦ rw (count_if-append (has_key k) items (i ∷ []), e, same) (omega arith)
    | inr apart ↦ rw (count_if-append (has_key k) items (i ∷ []), e, apart) (omega arith)
  ]

  snoc-IsKeyed :
      (w : Walk) (i : Item) (key : Text)
      → text_in key w.seen_files ≡ false
      → item_key i ≡ key
      → IsKeyed w
      → IsKeyed (record w { seen_files = key ∷ w.seen_files; items = w.items ++ i ∷ [] })
  unfolding text_in
  snoc-IsKeyed w i key new e h = record {
    once = λ k. elim (Bool-cases (text_eq k key)) [
      | inl same ↦
          let is_new : text_in k w.seen_files ≡ false = rw ((text_eq_iff k key).0 same) new in
          rw (count-snoc k w.items i key e, same) (omega (arith, h.seen k is_new))
      | inr apart ↦ rw (count-snoc k w.items i key e, apart) (h.once k)
    ];
    seen = λ k unseen.
        let apart : text_eq k key ≡ false = ground arith in
        let fresh : text_in k w.seen_files ≡ false = ground arith in
        rw (count-snoc k w.items i key e, apart) (h.seen k fresh);
  }

  append_at-IsKeyed :
      (root : Text) (include exclude : List Text) (kind : Kind) (info : FileInfo) (abs_path : Text)
      (w : Walk)
      → IsKeyed w
      → IsKeyed (append_at fs opts root include exclude kind info abs_path w)
  unfolding append_at
  append_at-IsKeyed root include exclude kind info abs_path w h =
      elim (Bool-cases (text_in (dedup_key fs abs_path) w.seen_files)) [
        | inl known ↦ rw known h
        | inr new ↦ rw new (
            snoc-IsKeyed w _ (dedup_key fs abs_path) new
              (item_at-key root include exclude abs_path kind info) h)
      ]

  -- Some extension of the kind passes the filter.
  abbrev passes : Kind → Bool
  passes kind =
      any_in
        (λ ext. ext_allowed ext (build_ext_set opts.include_ext) (build_ext_set opts.exclude_ext))
        (extensions_of kind)

  abbrev Passes : Kind → Type 0
  Passes kind = passes kind ≡ true

  record IsWalk (w : Walk) : Type 0 where
    keyed : IsKeyed w
    pass : All (λ i. Passes i.kind) w.items

  append_at-pass :
      (root : Text) (include exclude : List Text) (kind : Kind) (info : FileInfo) (abs_path : Text)
      (w : Walk)
      → Passes kind
      → All (λ i. Passes i.kind) w.items
      → All (λ i. Passes i.kind) (append_at fs opts root include exclude kind info abs_path w).items
  unfolding append_at item_at
  append_at-pass root include exclude kind info abs_path w p h =
      elim (Bool-cases (text_in (dedup_key fs abs_path) w.seen_files)) [
        | inl known ↦ rw known h
        | inr new ↦ rw new (All-append _ w.items (_ ∷ []) h (p, tt))
      ]

  IsWalk-Keeps :
      (root : Text)
      → Keeps fs opts root (build_ext_set opts.include_ext) (build_ext_set opts.exclude_ext) IsWalk
  IsWalk-Keeps root = record {
    appends = λ w path abs_path kind info passes is_kind h. record {
      keyed = append_at-IsKeyed root _ _ kind info abs_path w h.keyed;
      pass =
          append_at-pass root _ _ kind info abs_path w
            (any_in_of _ (to_lower (fs.ext path)) _ (kind-extension _ kind is_kind) passes) h.pass;
    };
    marks = λ w key h. record {
      keyed = record { once = h.keyed.once; seen = h.keyed.seen };
      pass = h.pass;
    };
  }

  -- Items in the order of their paths, no path twice, each of a kind of which some extension passes
  -- the filter.
  pub record IsDiscovery (items : List Item) : Type 0 where
    pub sorted : SortedBy less_path items
    pub distinct : (path : Text) → count_if (λ i. text_eq path i.path) items ≤ 1
    pub passing : All (λ i. Passes i.kind) items

  same_key :
      (path : Text) (i : Item) → text_eq path i.path ≡ true → has_key (path_key path) i ≡ true
  unfolding item_key
  same_key path i e = rw ((text_eq_iff path i.path).0 e) (text_eq_refl _)

  paths_distinct :
      (w : Walk) → IsKeyed w → (path : Text) → count_if (λ i. text_eq path i.path) w.items ≤ 1
  paths_distinct w h path =
      let more =
        count_if-imp (λ i. text_eq path i.path) (has_key (path_key path)) w.items
          (λ i e. same_key path i e) in
      omega (arith, h.once (path_key path))

  less_path-IsStrictWeak : IsStrictWeak less_path
  less_path-IsStrictWeak = record {
    irrefl = λ a. text_ltb_irrefl a.path;
    trans = λ a b c h k. text_ltb_trans a.path b.path c.path h k;
    negtrans = λ a b c h k. text_ltb_negtrans a.path b.path c.path h k;
  }

  -- A test that fails on no element of a list fails on none of a rearranged one.
  Perm-passing :
      {xs ys : List Item} → Perm ys xs → All (λ i. Passes i.kind) xs → All (λ i. Passes i.kind) ys
  Perm-passing {xs = xs} {ys = ys} r h =
      All-imp _ _ (λ i e. ground arith) ys
        (count_if-eq_zero (λ i. not (passes i.kind)) ys
          (Perm-count_if (λ i. not (passes i.kind)) r
            ∙ All-count_if (λ i. not (passes i.kind)) xs (All-imp _ _ (λ i e. ground arith) xs h)))

  empty-IsWalk : IsWalk empty_walk
  empty-IsWalk = record {
    keyed = record { once = λ k. omega arith; seen = λ k h. refl };
    pass = tt;
  }

  walked-IsDiscovery :
      (sorter : Sorter) (w : Walk) → IsWalk w → IsDiscovery (sorter.sort less_path w.items)
  walked-IsDiscovery sorter w h =
      let r = sorter.sort-perm less_path w.items in
      record {
        sorted = sorter.sort-SortedBy less_path less_path-IsStrictWeak w.items;
        distinct = λ path.
            omega
              (arith, Perm-count_if (λ i. text_eq path i.path) r, paths_distinct w h.keyed path);
        passing = Perm-passing r h.pass;
      }

  result-IsDiscovery :
      (sorter : Sorter) (r : Walked) (items : List Item)
      → Holds IsWalk Unit r
      → sorted_items sorter r ≡ found items
      → IsDiscovery items
  unfolding sorted_items
  result-IsDiscovery sorter (ok w) items h e =
      let same : sorter.sort less_path w.items ≡ items = cc in
      subst IsDiscovery same (walked-IsDiscovery sorter w h)
  result-IsDiscovery sorter (failed x) items h e = cc
  result-IsDiscovery sorter out_of_fuel items h e = cc

  either-IsDiscovery :
      (sorter : Sorter) (no_source : Bool) (r : Walked) (items : List Item)
      → Holds IsWalk Unit r
      → (if no_source then found [] else sorted_items sorter r) ≡ found items
      → IsDiscovery items
  either-IsDiscovery sorter true r items h e =
      let same : [] ≡ items = cc in
      subst IsDiscovery same (record { sorted = tt; distinct = λ path. omega arith; passing = tt })
  either-IsDiscovery sorter false r items h e = result-IsDiscovery sorter r items h e

  -- The items that a discovery returns stand in the order of their paths, no path stands there
  -- twice, and each is of a kind of which some extension passes the filter of the options.
  pub discover-IsDiscovery :
      (sorter : Sorter) (fuel : ℕ) (items : List Item)
      → discover fs sorter fuel opts ≡ found items
      → IsDiscovery items
  unfolding discover
  discover-IsDiscovery sorter fuel items e =
      either-IsDiscovery sorter (is_empty opts.src) (scan_sources fs opts fuel opts.src empty_walk)
        items
        (scan_sources-Holds fs opts IsWalk Unit IsWalk-Keeps fuel
          (λ root. scan_dir-Holds fs opts root _ _ IsWalk (IsWalk-Keeps root) fuel) opts.src
          empty_walk empty-IsWalk)
        e
