-- ===== src/Plan/Build/Returns.antt =====
-- When `Build` of internal/plan/build.go returns, and when it panics.
use tgup.Prelude.{
  ℕ, ◌+◌, ◌*◌, ◌^◌, ◌≤◌, ◌<◌, ◌≡◌, refl, ◌∙◌, List, [], ◌∷◌, ◌++◌, length, length-append,
  Perm-length, none, some, arith,
}
use tgup.Scan.Model.{Item}
use tgup.Plan.Model.{Options, Album, Plan}
use tgup.Plan.Sort.{Sorter, sort_items}
use tgup.Plan.Order.{sort_items-perm}
use tgup.Plan.Group.{Group, group, all_items, group-perm}
use tgup.Plan.Split.{split, split-returns, chunk_capacity-IsNone}
use tgup.Plan.Build.{build, build_albums, build_label, label_chunks, album_size}
use tgup.Plan.Build.Albums.{album_size-pos}

build_albums-returns :
    (size : ℕ) (groups : List Group)
    → 0 < size
    → length (all_items groups) + size ≤ 2 ^ 63
    → (albums : List Album) × (build_albums size groups ≡ some albums)
unfolding build_albums
build_albums-returns size [] pos h = ([], refl)
build_albums-returns size ((key, items) ∷ groups) pos h =
    let room : length items + length (all_items groups) + size ≤ 2 ^ 63 =
      omega (arith, h, length-append items (all_items groups)) in
    let (chunks, c) = split-returns items size pos (omega arith) in
    let (more, m) = build_albums-returns size groups pos (omega arith) in
    (label_chunks (build_label key) chunks ++ more, rw (c, m))

-- `Build` returns a plan, for any items and options for which the number of items and the album
-- size add up to at most 2 ^ 63.
pub build-returns :
    (s : Sorter) (items : List Item) (opts : Options)
    → length items + album_size opts ≤ 2 ^ 63
    → (p : Plan) × (build s items opts ≡ some p)
unfolding build
build-returns s [] opts h = (record { albums = [] }, refl)
build-returns s (item ∷ items) opts h =
    let sorted = sort_items s (item ∷ items) opts.order opts.reverse in
    let count : length (all_items (group sorted)) ≡ length (item ∷ items) =
      Perm-length (group-perm sorted)
      ∙ Perm-length (sort_items-perm s (item ∷ items) opts.order opts.reverse) in
    let (albums, a) =
      build_albums-returns (album_size opts) (group sorted) (album_size-pos opts) (omega arith) in
    (record { albums = albums }, rw a)

-- Slicing a group of items panics in `make`, on a negative capacity, where the number of items
-- and the album size (above 0) add up to more than 2 ^ 63, but the number of items and twice the album size
-- to no more than 2 ^ 64 + 1; for the largest album size these are groups of 2 or 3 items.
pub split-panics :
    (item : Item) (items : List Item) (size : ℕ)
    → let n = length (item ∷ items) in
      0 < size → 2 ^ 63 < n + size → n + 2 * size ≤ 2 ^ 64 + 1 → split (item ∷ items) size ≡ none
unfolding split
split-panics item items size pos over under =
    rw (chunk_capacity-IsNone (length (item ∷ items)) size pos over under, split)
