-- ===== src/Plan/Build.antt =====
-- `Build` of internal/plan/build.go, and the labels of albums. Paths have `/` as their separator,
-- so `filepath.ToSlash` changes nothing.
pub mod Albums
pub mod Returns
mod Tests
use mathlib.Core.List.{reverse}
use tgup.Prelude.{
  ℕ, ◌+◌, Bool, true, false, List, [], ◌∷◌, ◌++◌, length, Option, none, some, ◌==◌, if◌then◌else◌,
  ◌>>=◌,
}
use tgup.Prelude.Text.{Text, codes, text_eq, decimal}
use tgup.Prelude.Int.{ℤ, pos, negsuc}
use tgup.Scan.Model.{Item}
use tgup.Plan.Model.{Options, GroupKey, Album, Plan, default_album_max}
use tgup.Plan.Sort.{Sorter, sort_items}
use tgup.Plan.Group.{Group, group}
use tgup.Plan.Split.{split}

-- The parts of `filepath.Base`: trailing separators go, then all up to the last one.
unfoldable pub skip_slashes : Text → Text
skip_slashes [] = []
skip_slashes (c ∷ s) = let rest = skip_slashes s in if c == b'/' then rest else c ∷ s

unfoldable pub up_to_slash : Text → Text
up_to_slash [] = []
up_to_slash (c ∷ s) = let rest = up_to_slash s in if c == b'/' then [] else c ∷ rest

unfoldable pub base_name : Text → Text
unfolding skip_slashes up_to_slash
base_name [] = codes "."
base_name (c ∷ s) =
    let name = reverse (up_to_slash (skip_slashes (reverse (c ∷ s)))) in
    if text_eq name [] then codes "/" else name

unfoldable pub build_label : GroupKey → Text
unfolding base_name
build_label key =
    let base = base_name key.src_root in
    if text_eq key.parent_dir []
    then if text_eq base (codes ".")
      then key.src_root
      else if text_eq base (codes "/")
      then key.src_root
      else if text_eq base []
      then key.src_root
      else base
    else key.parent_dir

-- `fmt.Sprintf("%s (%d/%d)", label, i+1, len(chunks))`.
unfoldable pub numbered : Text → ℕ → ℕ → Text
numbered label i n = label ++ codes " (" ++ decimal (i + 1) ++ codes "/" ++ decimal n ++ codes ")"

unfoldable pub number_albums : Text → ℕ → ℕ → List (List Item) → List Album
unfolding numbered
number_albums label n i [] = []
number_albums label n i (chunk ∷ chunks) =
    record { label = numbered label i n; items = chunk } ∷ number_albums label n (i + 1) chunks

-- A single piece has the bare label.
unfoldable pub label_chunks : Text → List (List Item) → List Album
unfolding number_albums
label_chunks label [] = []
label_chunks label (chunk ∷ []) = record { label = label; items = chunk } ∷ []
label_chunks label (chunk ∷ next ∷ chunks) =
    number_albums label (length (chunk ∷ next ∷ chunks)) 0 (chunk ∷ next ∷ chunks)

-- `maxPerAlbum`: an `AlbumMax` of 0 or less is replaced.
unfoldable pub max_per_album : ℤ → ℕ
max_per_album (pos n) = if n == 0 then default_album_max else n
max_per_album (negsuc n) = default_album_max

unfoldable pub album_size : Options → ℕ
unfolding max_per_album
album_size opts = max_per_album opts.album_max

-- The loop over the groups; `none` is a panic in `split`.
unfoldable pub build_albums : ℕ → List Group → Option (List Album)
unfolding label_chunks
build_albums size [] = some []
build_albums size ((key, items) ∷ groups) = do
  chunks ← split items size
  albums ← build_albums size groups
  some (label_chunks (build_label key) chunks ++ albums)

unfoldable pub build : Sorter → List Item → Options → Option Plan
unfolding album_size build_albums
build s [] opts = some (record { albums = [] })
build s (item ∷ items) opts = do
  let sorted = sort_items s (item ∷ items) opts.order opts.reverse
  albums ← build_albums (album_size opts) (group sorted)
  some (record { albums = albums })
