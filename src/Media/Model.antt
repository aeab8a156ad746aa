-- ===== src/Media/Model.antt =====
-- Media kinds and metadata (internal/media/kinds.go, metadata.go, validate.go). A number of
-- seconds is a float in the source; here it is no number, infinite, or a number of microseconds.
use tgup.Prelude.{if◌then◌else◌}
use tgup.Prelude.Text.{Text, codes}
use tgup.Prelude.Int.{ℤ, pos, ltb_ℤ, eq_ℤ}

pub data Kind : Type 0 where
  image video none : Kind

pub data Seconds : Type 0 where
  nan infinite : Seconds
  micros : ℤ → Seconds

pub record VideoMetadata : Type 0 where
  pub duration_seconds : Seconds
  pub width : ℤ
  pub height : ℤ

unfoldable pub size_reason : ℤ → ℤ → Text
size_reason width height =
    if ltb_ℤ width (pos 2)
    then if eq_ℤ width (pos 0) then codes "width_missing" else codes "width_too_small"
    else if ltb_ℤ height (pos 2)
    then if eq_ℤ height (pos 0) then codes "height_missing" else codes "height_too_small"
    else codes ""

-- `ViolationReason`.
unfoldable pub violation_reason : VideoMetadata → Text
unfolding size_reason
violation_reason m = elim m.duration_seconds [
  | nan ↦ codes "duration_invalid"
  | infinite ↦ codes "duration_invalid"
  | micros d ↦
      if eq_ℤ d (pos 0)
      then codes "duration_missing"
      else if ltb_ℤ d (pos 0)
      then codes "duration_non_positive"
      else size_reason m.width m.height
]
