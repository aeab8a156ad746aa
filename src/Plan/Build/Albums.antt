-- ===== src/Plan/Build/Albums.antt =====
-- What the plan that `Build` (internal/plan/build.go) returns holds.
use mathlib.Core.Path.{subst}
use mathlib.Core.List.{Perm, map-append, append-nil}
use mathlib.Core.List.Perm
use tgup.Prelude.{
  ℕ, ◌+◌, ◌<◌, ◌≡◌, refl, ap, ◌∙◌, true, false, List, [], ◌∷◌, map, some, >>=-eq-some, some_inj,
  All, All-both, All-imp, All-map, All-concat, All-append, concat, concat-append, keep, keep-append,
  arith, Bool-cases, inl, inr,
}
use tgup.Prelude.Text.{Text}
use tgup.Scan.Model.{Item}
use tgup.Plan.Model.{Options, GroupKey, Album, Plan}
use tgup.Plan.Sort.{Sorter, sort_items}
use tgup.Plan.Order.{sort_items-perm}
use tgup.Plan.Group.{
  Group, group, in_group, all_items, find_group, AreGrouped, IsFresh, key_eq, key_of, key_eq_iff,
  group-perm, group-AreGrouped, find_group-group,
}
use tgup.Plan.Split.{split, IsChunk, IsSplit, split-IsSplit}
use tgup.Plan.Build.{build, build_albums, build_label, label_chunks, number_albums, album_size}

abbrev pub album_items : List Album → List (List Item)
album_items albums = map (λ a. a.items) albums

-- The items of a plan, album by album.
abbrev pub plan_items : Plan → List Item
plan_items p = concat (album_items p.albums)

-- An album is not empty, is not too large, and its items come from one directory of one source.
abbrev pub IsAlbum : ℕ → Album → Type 0
IsAlbum size a =
    IsChunk size a.items × ((key : GroupKey) × All (λ i. in_group key i ≡ true) a.items)

number_albums-items :
    (label : Text) (n i : ℕ) (chunks : List (List Item))
    → album_items (number_albums label n i chunks) ≡ chunks
unfolding number_albums
number_albums-items label n i [] = refl
number_albums-items label n i (chunk ∷ chunks) =
    ap (◌∷◌ chunk) (number_albums-items label n (i + 1) chunks)

label_chunks-items :
    (label : Text) (chunks : List (List Item)) → album_items (label_chunks label chunks) ≡ chunks
unfolding label_chunks
label_chunks-items label [] = refl
label_chunks-items label (chunk ∷ []) = refl
label_chunks-items label (chunk ∷ next ∷ chunks) =
    number_albums-items label _ 0 (chunk ∷ next ∷ chunks)

pub album_size-pos : (opts : Options) → 0 < album_size opts
unfolding album_size
album_size-pos opts = ground arith

label_chunks-IsAlbum :
    (size : ℕ) (key : GroupKey) (items : List Item) (chunks : List (List Item))
    → IsSplit items size chunks
    → All (λ i. in_group key i ≡ true) items
    → All (IsAlbum size) (label_chunks (build_label key) chunks)
label_chunks-IsAlbum size key items chunks s h =
    All-map (λ a. a.items)
      (λ c. IsChunk size c × ((k : GroupKey) × All (λ i. in_group k i ≡ true) c))
      (label_chunks (build_label key) chunks)
      (rw (label_chunks-items (build_label key) chunks) (
        All-imp _ _ (λ c both. (both.0, (key, both.1))) chunks
          (All-both (IsChunk size) (All (λ i. in_group key i ≡ true)) chunks s.sizes
            (All-concat _ chunks (rw s.all h)))))

build_albums-items :
    (size : ℕ) (groups : List Group) (albums : List Album)
    → 0 < size
    → build_albums size groups ≡ some albums
    → concat (album_items albums) ≡ all_items groups
unfolding build_albums
build_albums-items size [] albums pos h = subst (λ x. concat (album_items x) ≡ []) (some_inj h) refl
build_albums-items size ((key, items) ∷ groups) albums pos h =
    let (chunks, c, h') = >>=-eq-some (split items size) _ h in
    let (more, m, e) = >>=-eq-some (build_albums size groups) _ h' in
    rw (
      ← some_inj e,
      map-append,
      concat-append,
      label_chunks-items,
      (split-IsSplit items size chunks pos c).all,
      build_albums-items size groups more pos m,
    )

build_albums-IsAlbum :
    (size : ℕ) (groups : List Group) (albums : List Album)
    → 0 < size
    → AreGrouped groups
    → build_albums size groups ≡ some albums
    → All (IsAlbum size) albums
unfolding build_albums
build_albums-IsAlbum size [] albums pos g h = subst (All (IsAlbum size)) (some_inj h) tt
build_albums-IsAlbum size ((key, items) ∷ groups) albums pos g h =
    let (chunks, c, h') = >>=-eq-some (split items size) _ h in
    let (more, m, e) = >>=-eq-some (build_albums size groups) _ h' in
    subst (All (IsAlbum size)) (some_inj e) (
      All-append (IsAlbum size) (label_chunks (build_label key) chunks) more
        (label_chunks-IsAlbum size key items chunks (split-IsSplit items size chunks pos c) g.1)
        (build_albums-IsAlbum size groups more pos g.3 m))

build-groups :
    (s : Sorter) (item : Item) (items : List Item) (opts : Options) (p : Plan)
    → build s (item ∷ items) opts ≡ some p
    → build_albums (album_size opts) (group (sort_items s (item ∷ items) opts.order opts.reverse))
      ≡ some p.albums
unfolding build
build-groups s item items opts p h =
    let (albums, a, e) = >>=-eq-some (build_albums (album_size opts) _) _ h in
    a ∙ ap (λ (q : Plan). some q.albums) (some_inj e)

build-nil :
    (s : Sorter) (opts : Options) (p : Plan) → build s [] opts ≡ some p → record { albums = [] } ≡ p
unfolding build
build-nil s opts p h = some_inj h

-- A plan that `Build` returns holds every item that it was given, as often as it was given: it
-- rearranges the items, whatever the order, the options and the sorting of ties.
pub build-perm :
    (s : Sorter) (items : List Item) (opts : Options) (p : Plan)
    → build s items opts ≡ some p
    → Perm (plan_items p) items
build-perm s [] opts p h = subst (λ q. Perm (plan_items q) []) (build-nil s opts p h) (Perm.refl [])
build-perm s (item ∷ items) opts p h =
    let sorted = sort_items s (item ∷ items) opts.order opts.reverse in
    rw
      (build_albums-items (album_size opts) (group sorted) p.albums (album_size-pos opts)
        (build-groups s item items opts p h))
      (Perm.trans (group-perm sorted) (sort_items-perm s (item ∷ items) opts.order opts.reverse))

-- Each album of a plan that `Build` returns has at least one item, at most as many as the
-- options allow (10 where `AlbumMax` is not positive), and items of one directory and one source
-- only.
pub build-IsAlbum :
    (s : Sorter) (items : List Item) (opts : Options) (p : Plan)
    → build s items opts ≡ some p
    → All (IsAlbum (album_size opts)) p.albums
build-IsAlbum s [] opts p h =
    subst (λ (q : Plan). All (IsAlbum (album_size opts)) q.albums) (build-nil s opts p h) tt
build-IsAlbum s (item ∷ items) opts p h =
    build_albums-IsAlbum (album_size opts) _ p.albums (album_size-pos opts) (group-AreGrouped _)
      (build-groups s item items opts p h)

keep-none :
    (key : GroupKey) (items : List Item)
    → All (λ i. in_group key i ≡ false) items
    → keep (in_group key) items ≡ []
keep-none key [] h = refl
keep-none key (i ∷ is) h = rw h.0 (keep-none key is h.1)

keep-own :
    (key : GroupKey) (items : List Item)
    → All (λ i. in_group key i ≡ true) items
    → keep (in_group key) items ≡ items
keep-own key [] h = refl
keep-own key (i ∷ is) h = rw (h.0, keep-own key is h.1)

-- Items of one group have the key of no other.
other_group :
    (k key : GroupKey) (items : List Item)
    → key_eq k key ≡ false
    → All (λ i. in_group k i ≡ true) items
    → All (λ i. in_group key i ≡ false) items
other_group k key items ne h =
    All-imp _ _
      (λ i e. ground (arith, key_eq_iff k key, key_eq_iff k (key_of i), key_eq_iff key (key_of i)))
      items h

keep-fresh :
    (key : GroupKey) (groups : List Group)
    → IsFresh key groups
    → AreGrouped groups
    → keep (in_group key) (all_items groups) ≡ []
keep-fresh key [] f g = refl
keep-fresh key ((k, items) ∷ groups) f g =
    rw
      (
        keep-append,
        keep-none key items
            (other_group k key items (ground (arith, f.0, key_eq_iff k key, key_eq_iff key k)) g.1),
      )
      (keep-fresh key groups f.1 g.3)

keep-all_items :
    (key : GroupKey) (groups : List Group)
    → AreGrouped groups
    → keep (in_group key) (all_items groups) ≡ find_group key groups
keep-all_items key [] g = refl
keep-all_items key ((k, items) ∷ groups) g = elim (Bool-cases (key_eq k key)) [
  | inl same ↦ rw (
    keep-append,
    same,
    ← (key_eq_iff k key).0 same,
    keep-own k items g.1,
    keep-fresh k groups g.2 g.3,
    append-nil,
  )
  | inr other ↦
      rw (keep-append, other, keep-none key items (other_group k key items other g.1))
        (keep-all_items key groups g.3)
]

-- For each directory of each source, its items stand in a plan that `Build` returns in the order
-- in which sorting put them.
pub build-order :
    (s : Sorter) (items : List Item) (opts : Options) (p : Plan) (key : GroupKey)
    → build s items opts ≡ some p
    → keep (in_group key) (plan_items p)
      ≡ keep (in_group key) (sort_items s items opts.order opts.reverse)
build-order s [] opts p key h =
    rw (Perm.eq-nil (sort_items-perm s [] opts.order opts.reverse))
      (subst (λ q. keep (in_group key) (plan_items q) ≡ []) (build-nil s opts p h) refl)
build-order s (item ∷ items) opts p key h =
    let sorted = sort_items s (item ∷ items) opts.order opts.reverse in
    rw
      (build_albums-items (album_size opts) (group sorted) p.albums (album_size-pos opts)
        (build-groups s item items opts p h))
      (keep-all_items key (group sorted) (group-AreGrouped sorted) ∙ find_group-group key sorted)
