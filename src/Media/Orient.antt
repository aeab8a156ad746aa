-- ===== src/Media/Orient.antt =====
-- Pictures and their orientation (internal/media/image.go: `rotate90`, `rotate180`, `rotate270`,
-- `flipH`, `flipV`, `applyExifOrientation`). A picture has a rectangle of pixels, whose far
-- corner is outside; outside of the rectangle `at` has the colour zero.
use tgup.Prelude.{ℕ, zero, suc, ◌-◌, Bool, Option, none, some, ltb, leb, ◌&&◌, ◌==◌, if◌then◌else◌}

pub record Picture (A : Type 0) : Type 0 where
  pub min_x : ℕ
  pub min_y : ℕ
  pub max_x : ℕ
  pub max_y : ℕ
  pub at : ℕ → ℕ → A

-- A loop with a counter, on the number of its rounds.
unfoldable pub for_each {ℓ} : {S : Type ℓ} → ℕ → ℕ → (ℕ → S → S) → S → S
for_each zero i body s = s
for_each (suc n) i body s = for_each n (suc i) body (body i s)

module _ {A : Type 0} where
  unfoldable pub width : Picture A → ℕ
  width p = p.max_x - p.min_x

  unfoldable pub height : Picture A → ℕ
  height p = p.max_y - p.min_y

  -- `image.NewRGBA` of a rectangle at the origin.
  unfoldable pub new_rgba : A → ℕ → ℕ → Picture A
  new_rgba clear w h = record { min_x = 0; min_y = 0; max_x = w; max_y = h; at = λ x y. clear }

  unfoldable pub contains : Picture A → ℕ → ℕ → Bool
  contains p x y = leb p.min_x x && ltb x p.max_x && (leb p.min_y y && ltb y p.max_y)

  -- `Set`, which does nothing outside of the rectangle.
  unfoldable pub set : Picture A → ℕ → ℕ → A → Picture A
  unfolding contains
  set p x y colour =
      if contains p x y
      then record {
        min_x = p.min_x;
        min_y = p.min_y;
        max_x = p.max_x;
        max_y = p.max_y;
        at = λ i j. if i == x && j == y then colour else p.at i j;
      }
      else p

  -- The two loops over the pixels of a picture.
  unfoldable pub each_pixel : Picture A → (ℕ → ℕ → Picture A → Picture A) → Picture A → Picture A
  unfolding for_each width height
  each_pixel img body =
      for_each (height img) img.min_y (λ y. for_each (width img) img.min_x (λ x. body x y))

  module _ (clear : A) where
    unfoldable pub rotate90 : Picture A → Picture A
    unfolding each_pixel new_rgba set
    rotate90 img =
        each_pixel img (λ x y dst. set dst (img.max_y - 1 - y) x (img.at x y))
          (new_rgba clear (height img) (width img))

    unfoldable pub rotate180 : Picture A → Picture A
    unfolding each_pixel new_rgba set
    rotate180 img =
        each_pixel img (λ x y dst. set dst (img.max_x - 1 - x) (img.max_y - 1 - y) (img.at x y))
          (new_rgba clear (width img) (height img))

    unfoldable pub rotate270 : Picture A → Picture A
    unfolding each_pixel new_rgba set
    rotate270 img =
        each_pixel img (λ x y dst. set dst y (img.max_x - 1 - x) (img.at x y))
          (new_rgba clear (height img) (width img))

    unfoldable pub flip_h : Picture A → Picture A
    unfolding each_pixel new_rgba set
    flip_h img =
        each_pixel img (λ x y dst. set dst (img.max_x - 1 - x) y (img.at x y))
          (new_rgba clear (width img) (height img))

    unfoldable pub flip_v : Picture A → Picture A
    unfolding each_pixel new_rgba set
    flip_v img =
        each_pixel img (λ x y dst. set dst x (img.max_y - 1 - y) (img.at x y))
          (new_rgba clear (width img) (height img))

    -- The cases of `applyExifOrientation`.
    unfoldable pub oriented : ℕ → Picture A → Picture A
    unfolding rotate90 rotate180 rotate270 flip_h flip_v
    oriented orient img =
        if orient == 2
        then flip_h img
        else if orient == 3
        then rotate180 img
        else if orient == 4
        then flip_v img
        else if orient == 5
        then flip_h (rotate90 img)
        else if orient == 6
        then rotate90 img
        else if orient == 7
        then flip_h (rotate270 img)
        else if orient == 8
        then rotate270 img
        else img

    -- `applyExifOrientation`, on the orientation that the file holds, if it can be read.
    unfoldable pub apply_exif_orientation : Option ℕ → Picture A → Picture A
    unfolding oriented
    apply_exif_orientation none img = img
    apply_exif_orientation (some orient) img = oriented orient img
