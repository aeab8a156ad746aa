-- ===== src/Scan/Tests.antt =====
-- Tests of discovery: a directory with a picture, a text, and a link to itself.
use tgup.Prelude.{◌≡◌, ◌≢◌, refl, true, some, List, [], ◌∷◌, arith, Bool-cases, inl, inr}
use tgup.Prelude.Int.{pos}
use tgup.Prelude.Text.{Text, codes, text_eq, text_eq_iff, to_lower, trim_space, has_prefix}
use tgup.Plan.Insertion.{insertion, sorter}
use tgup.Scan.Model.{Item}
use tgup.Scan.Filter.{ext_allowed, detect_kind, text_in, new_filter, allowed}
use tgup.Scan.Discover.{Options, found, endless, discover, dir_key}
use tgup.Scan.Sample.{disk, is_one, names}
use tgup.Scan.Found.{IsDiscovery, discover-IsDiscovery}
use tgup.Scan.Returns.{discover-returns}

-- Letter case, white space and the dot of an extension do not matter to a filter.
lenient_filter :
    allowed (new_filter (codes "JPG" ∷ codes " .png " ∷ []) (codes "gif" ∷ [])) (codes " Png")
    ≡ true
unfolding allowed trim_space to_lower new_filter text_eq has_prefix
lenient_filter = refl

abbrev options : Options
options = record {
  src = codes "/m" ∷ codes " " ∷ codes "/m" ∷ [];
  recursive = true;
  follow_symlinks = true;
  include_ext = [];
  exclude_ext = codes "png" ∷ [];
}

abbrev picture : Item
picture = record {
  path = codes "/m/a.jpg";
  src_root = codes "/m";
  parent_dir = [];
  size = 5;
  mtime_ns = pos 7;
  kind = tgup.Scan.Model.Kind.image;
}

finds_picture : discover disk sorter 2 options ≡ found (picture ∷ [])
unfolding discover trim_space text_eq text_in ext_allowed to_lower has_prefix detect_kind insertion
finds_picture = refl

discover-IsDiscovery_example : IsDiscovery disk options (picture ∷ [])
discover-IsDiscovery_example =
    discover-IsDiscovery disk options sorter 2 (picture ∷ []) finds_picture

top_key : text_in (dir_key disk options (codes "/m")) (codes "/m" ∷ []) ≡ true
unfolding text_in text_eq dir_key
top_key = refl

up_key : text_in (dir_key disk options (codes "/m/up")) (codes "/m" ∷ []) ≡ true
unfolding text_in text_eq dir_key
up_key = refl

one_directory :
    (path : Text) (ns : List Text)
    → names path ≡ some ns
    → text_in (dir_key disk options path) (codes "/m" ∷ []) ≡ true
one_directory path ns e = elim (Bool-cases (is_one path "/m")) [
  | inl top ↦ rw ((text_eq_iff path (codes "/m")).0 top) top_key
  | inr not_top ↦ elim (Bool-cases (is_one path "/m/up")) [
    | inl up ↦ rw ((text_eq_iff path (codes "/m/up")).0 up) up_key
    | inr not_up ↦ absurd (ground arith)
  ]
]

discover-returns_example : discover disk sorter 2 options ≢ endless
discover-returns_example =
    discover-returns disk options (codes "/m" ∷ []) one_directory sorter 2 (omega arith)
