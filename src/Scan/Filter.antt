-- ===== src/Scan/Filter.antt =====
-- The extensions that discovery lets pass (internal/scan/filter.go, and of internal/scan/scan.go
-- `buildExtSet`, `extAllowed`, `detectKind`). A set of extensions is the list of its elements.
use tgup.Prelude.{Bool, true, false, ◌||◌, Option, none, some, List, [], ◌∷◌, ◌++◌, if◌then◌else◌}
use tgup.Prelude.Text.{Text, codes, text_eq, to_lower, trim_space, has_prefix}
use tgup.Scan.Model.{Kind, image, video}

unfoldable pub text_in : Text → List Text → Bool
text_in s [] = false
text_in s (t ∷ ts) = text_eq s t || text_in s ts

unfoldable pub is_empty : {A : Type 0} → List A → Bool
is_empty [] = true
is_empty (x ∷ xs) = false

abbrev pub default_image_ext : List Text
default_image_ext = codes ".jpg" ∷ codes ".jpeg" ∷ codes ".png" ∷ codes ".webp" ∷ codes ".heic" ∷ []

abbrev pub default_video_ext : List Text
default_video_ext = codes ".mp4" ∷ codes ".mov" ∷ codes ".mkv" ∷ codes ".webm" ∷ []

unfoldable pub dotted : Text → Text
dotted ext = if has_prefix ext (codes ".") then ext else codes "." ++ ext

-- `buildExtSet`.
unfoldable pub build_ext_set : List Text → List Text
unfolding is_empty dotted
build_ext_set [] = []
build_ext_set (ext ∷ exts) =
    let e = trim_space (to_lower ext) in
    let rest = build_ext_set exts in if is_empty e then rest else dotted e ∷ rest

-- `extAllowed`.
unfoldable pub ext_allowed : Text → List Text → List Text → Bool
unfolding text_in is_empty
ext_allowed ext include exclude =
    if text_in ext exclude then false else if is_empty include then true else text_in ext include

-- `detectKind`.
unfoldable pub detect_kind : Text → Option Kind
unfolding text_in
detect_kind ext =
    if text_in ext default_image_ext
    then some image
    else if text_in ext default_video_ext
    then some video
    else none

-- `Filter` and `NewFilter`.
pub record Filter : Type 0 where
  pub include : List Text
  pub exclude : List Text

unfoldable pub new_filter : List Text → List Text → Filter
unfolding build_ext_set
new_filter include_ext exclude_ext = record {
  include = build_ext_set include_ext;
  exclude = build_ext_set exclude_ext;
}

-- `Allowed`.
unfoldable pub allowed : Filter → Text → Bool
unfolding ext_allowed dotted is_empty
allowed f ext =
    let e = trim_space (to_lower ext) in
    if is_empty e then false else ext_allowed (dotted e) f.include f.exclude
