-- ===== src/Plan/Build/Tests.antt =====
-- Tests of the plan: an insertion sort as the sorter, and three files in two directories.
use Prim.Native.String.{String}
use mathlib.Core.List.{Perm}
use tgup.Prelude.{◌≡◌, ℕ, refl, false, List, [], ◌∷◌, All, arith, none, some, keep}
use tgup.Prelude.Text.{codes, text_eq, text_ltb, to_lower, trim_space, decimal}
use tgup.Prelude.Int.{pos}
use tgup.Scan.Model.{Item, image}
use tgup.Plan.Insertion.{insertion, sorter}
use tgup.Plan.Model.{Options, Plan}
use tgup.Plan.Sort.{sort_items, less_mtime}
use tgup.Plan.Group.{group, add_item, in_group, key_of, key_eq}
use tgup.Plan.Split.{split}
use tgup.Plan.Build.{build, build_label, album_size}
use tgup.Plan.Build.Albums.{plan_items, IsAlbum, build-perm, build-IsAlbum, build-order}
use tgup.Plan.Build.Returns.{build-returns, split-panics}

abbrev file : String → String → ℕ → ℕ → Item
file dir path bytes at = record {
  path = codes path;
  src_root = codes "/m";
  parent_dir = codes dir;
  size = bytes;
  mtime_ns = pos at;
  kind = image;
}

abbrev items : List Item
items =
    file "a" "/m/a/2" 7 30
    ∷ file "" "/m/1" 5 20
    ∷ file "a" "/m/a/1" 6 10
    ∷ file "a" "/m/a/3" 6 40
    ∷ []

abbrev opts : Options
opts = record { order = codes " Mtime"; reverse = false; album_max = pos 2 }

abbrev the_plan : Plan
the_plan = record {
  albums =
      record {
        label = codes "a (1/2)";
        items = file "a" "/m/a/1" 6 10 ∷ file "a" "/m/a/2" 7 30 ∷ [];
      }
      ∷ record { label = codes "a (2/2)"; items = file "a" "/m/a/3" 6 40 ∷ [] }
      ∷ record { label = codes "m"; items = file "" "/m/1" 5 20 ∷ [] }
      ∷ [];
}

build_test : build sorter items opts ≡ some the_plan
unfolding build sort_items insertion less_mtime group add_item key_of key_eq split build_label
    decimal text_eq text_ltb to_lower trim_space
build_test = refl

build-perm_example : Perm (plan_items the_plan) items
build-perm_example = build-perm sorter items opts the_plan build_test

build-IsAlbum_example : All (IsAlbum 2) the_plan.albums
unfolding album_size
build-IsAlbum_example = build-IsAlbum sorter items opts the_plan build_test

build-order_example :
    keep (in_group (key_of (file "a" "/m/a/1" 6 10))) (plan_items the_plan)
    ≡ keep (in_group (key_of (file "a" "/m/a/1" 6 10))) (sort_items sorter items opts.order false)
build-order_example =
    build-order sorter items opts the_plan (key_of (file "a" "/m/a/1" 6 10)) build_test

build-returns_example : (p : Plan) × (build sorter items opts ≡ some p)
unfolding album_size
build-returns_example = build-returns sorter items opts (omega arith)

split-panics_example : split (file "a" "1" 1 1 ∷ file "a" "2" 1 1 ∷ []) 9223372036854775807 ≡ none
split-panics_example =
    split-panics (file "a" "1" 1 1) (file "a" "2" 1 1 ∷ []) 9223372036854775807 (omega arith)
      (omega arith) (omega arith)
