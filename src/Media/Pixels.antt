-- ===== src/Media/Pixels.antt =====
-- Where the pixels of an oriented picture come from (internal/media/image.go: `rotate90`,
-- `rotate180`, `rotate270`, `flipH`, `flipV`, `applyExifOrientation`).
use tgup.Prelude.{
  ℕ, zero, suc, ◌-◌, ◌<◌, ◌≡◌, refl, ◌∙◌, true, false, some, ◌==◌, ◌&&◌, ltb, ap, if◌then◌else◌,
  arith,
}
use tgup.Media.Orient.{
  Picture, width, height, rotate90, rotate180, rotate270, flip_h, flip_v, oriented,
  apply_exif_orientation,
}
use tgup.Media.Loops.{HasShape, HasPixel, each_pixel-HasPixel}

module _ {A : Type 0} where
  moved :
      (w v h k x i y j : ℕ) (colour : A) (p : Picture A)
      → w ≡ v
      → h ≡ k
      → x ≡ i
      → y ≡ j
      → HasPixel w h x y colour p
      → HasPixel v k i j colour p
  moved w v h k x i y j colour p ew eh ex ey ((a, b, c, d), e) =
      ((a, b, c ∙ ew, d ∙ eh), rw (← ex, ← ey) e)

module _ {A : Type 0} (clear : A) (img : Picture A) (w h : ℕ) (shape : HasShape w h img) where
  -- The pixel at a place, under the functions that turn a picture.
  pub rotate90-HasPixel :
      (x y : ℕ) → x < h → y < w → HasPixel h w x y (img.at y (h - 1 - x)) (rotate90 clear img)
  unfolding rotate90 width height
  rotate90-HasPixel x y lx ly =
      moved (img.max_y - img.min_y) h (img.max_x - img.min_x) w (img.max_y - 1 - (h - 1 - x)) x y y
        (img.at y (h - 1 - x)) (rotate90 clear img) (omega arith) (omega arith) (omega arith) refl
        (each_pixel-HasPixel clear img (λ i j. img.max_y - 1 - j) (λ i j. i) (img.max_y - img.min_y)
          (img.max_x - img.min_x) y (h - 1 - x) (omega arith) (omega arith) (omega arith)
          (omega arith) (omega arith) (omega arith) (λ i j li lj ne. ground arith))

  pub rotate180-HasPixel :
      (x y : ℕ)
      → x < w
      → y < h
      → HasPixel w h x y (img.at (w - 1 - x) (h - 1 - y)) (rotate180 clear img)
  unfolding rotate180 width height
  rotate180-HasPixel x y lx ly =
      moved (img.max_x - img.min_x) w (img.max_y - img.min_y) h (img.max_x - 1 - (w - 1 - x)) x
        (img.max_y - 1 - (h - 1 - y)) y (img.at (w - 1 - x) (h - 1 - y)) (rotate180 clear img)
        (omega arith) (omega arith) (omega arith) (omega arith)
        (each_pixel-HasPixel clear img (λ i j. img.max_x - 1 - i) (λ i j. img.max_y - 1 - j)
          (img.max_x - img.min_x) (img.max_y - img.min_y) (w - 1 - x) (h - 1 - y) (omega arith)
          (omega arith) (omega arith) (omega arith) (omega arith) (omega arith)
          (λ i j li lj ne. ground arith))

  pub rotate270-HasPixel :
      (x y : ℕ) → x < h → y < w → HasPixel h w x y (img.at (w - 1 - y) x) (rotate270 clear img)
  unfolding rotate270 width height
  rotate270-HasPixel x y lx ly =
      moved (img.max_y - img.min_y) h (img.max_x - img.min_x) w x x (img.max_x - 1 - (w - 1 - y)) y
        (img.at (w - 1 - y) x) (rotate270 clear img) (omega arith) (omega arith) (omega arith)
        (omega arith)
        (each_pixel-HasPixel clear img (λ i j. j) (λ i j. img.max_x - 1 - i) (img.max_y - img.min_y)
          (img.max_x - img.min_x) (w - 1 - y) x (omega arith) (omega arith) (omega arith)
          (omega arith) (omega arith) (omega arith) (λ i j li lj ne. ground arith))

  pub flip_h-HasPixel :
      (x y : ℕ) → x < w → y < h → HasPixel w h x y (img.at (w - 1 - x) y) (flip_h clear img)
  unfolding flip_h width height
  flip_h-HasPixel x y lx ly =
      moved (img.max_x - img.min_x) w (img.max_y - img.min_y) h (img.max_x - 1 - (w - 1 - x)) x y y
        (img.at (w - 1 - x) y) (flip_h clear img) (omega arith) (omega arith) (omega arith)
        (omega arith)
        (each_pixel-HasPixel clear img (λ i j. img.max_x - 1 - i) (λ i j. j) (img.max_x - img.min_x)
          (img.max_y - img.min_y) (w - 1 - x) y (omega arith) (omega arith) (omega arith)
          (omega arith) (omega arith) (omega arith) (λ i j li lj ne. ground arith))

  pub flip_v-HasPixel :
      (x y : ℕ) → x < w → y < h → HasPixel w h x y (img.at x (h - 1 - y)) (flip_v clear img)
  unfolding flip_v width height
  flip_v-HasPixel x y lx ly =
      moved (img.max_x - img.min_x) w (img.max_y - img.min_y) h x x (img.max_y - 1 - (h - 1 - y)) y
        (img.at x (h - 1 - y)) (flip_v clear img) (omega arith) (omega arith) (omega arith)
        (omega arith)
        (each_pixel-HasPixel clear img (λ i j. i) (λ i j. img.max_y - 1 - j) (img.max_x - img.min_x)
          (img.max_y - img.min_y) x (h - 1 - y) (omega arith) (omega arith) (omega arith)
          (omega arith) (omega arith) (omega arith) (λ i j li lj ne. ground arith))

-- The size of an upright picture, by the orientation of the stored one, and the place of its
-- pixels in that: row 0 of the stored picture is the top, the right side, the bottom, ... of it.
unfoldable pub upright_size : ℕ → ℕ → ℕ → ℕ × ℕ
upright_size orient w h = if ltb 4 orient && ltb orient 9 then (h, w) else (w, h)

unfoldable pub stored_place : ℕ → ℕ → ℕ → ℕ → ℕ → ℕ × ℕ
stored_place orient w h x y =
    if orient == 2
    then (w - 1 - x, y)
    else if orient == 3
    then (w - 1 - x, h - 1 - y)
    else if orient == 4
    then (x, h - 1 - y)
    else if orient == 5
    then (y, x)
    else if orient == 6
    then (y, h - 1 - x)
    else if orient == 7
    then (w - 1 - y, h - 1 - x)
    else if orient == 8
    then (w - 1 - y, x)
    else (x, y)

module _ {A : Type 0} (clear : A) (img : Picture A) (w h : ℕ) (shape : HasShape w h img) where
  flip_rotate90 :
      (x y : ℕ) → x < h → y < w → HasPixel h w x y (img.at y x) (flip_h clear (rotate90 clear img))
  flip_rotate90 x y lx ly =
      let (s, e) = rotate90-HasPixel clear img w h shape (h - 1 - x) y (omega arith) ly in
      let (t, k) = flip_h-HasPixel clear (rotate90 clear img) h w s x y lx ly in
      let back : h - 1 - (h - 1 - x) ≡ x = omega arith in (t, k ∙ e ∙ ap (λ i. img.at y i) back)

  flip_rotate270 :
      (x y : ℕ)
      → x < h
      → y < w
      → HasPixel h w x y (img.at (w - 1 - y) (h - 1 - x)) (flip_h clear (rotate270 clear img))
  flip_rotate270 x y lx ly =
      let (s, e) = rotate270-HasPixel clear img w h shape (h - 1 - x) y (omega arith) ly in
      let (t, k) = flip_h-HasPixel clear (rotate270 clear img) h w s x y lx ly in (t, k ∙ e)

  unknown_orientation :
      (orient x y : ℕ)
      → 8 < orient
      → HasPixel
          (upright_size orient w h).0
          (upright_size orient w h).1
          x
          y
          (img.at (stored_place orient w h x y).0 (stored_place orient w h x y).1)
          (apply_exif_orientation clear (some orient) img)
  unfolding upright_size stored_place apply_exif_orientation oriented
  unknown_orientation orient x y large =
      let differs : (k : ℕ) → k < 9 → (orient == k) ≡ false = λ k small. ground arith in
      let over : ltb 4 orient ≡ true = ground arith in
      let past : ltb orient 9 ≡ false = ground arith in
      rw
        (
          over,
          past,
          differs 2 (omega arith),
          differs 3 (omega arith),
          differs 4 (omega arith),
          differs 5 (omega arith),
          differs 6 (omega arith),
          differs 7 (omega arith),
          differs 8 (omega arith),
        )
        (shape, refl)

  -- Undoing the orientation of a stored picture at the origin gives a picture at the origin whose
  -- size is the stored one, swapped for the orientations 5 to 8, and each of whose pixels has the
  -- colour of its place in the stored picture, as the orientation says it.
  pub apply_exif_orientation-HasPixel :
      (orient x y : ℕ)
      → x < (upright_size orient w h).0
      → y < (upright_size orient w h).1
      → HasPixel
          (upright_size orient w h).0
          (upright_size orient w h).1
          x
          y
          (img.at (stored_place orient w h x y).0 (stored_place orient w h x y).1)
          (apply_exif_orientation clear (some orient) img)
  unfolding upright_size stored_place apply_exif_orientation oriented
  apply_exif_orientation-HasPixel zero x y lx ly = (shape, refl)
  apply_exif_orientation-HasPixel (suc zero) x y lx ly = (shape, refl)
  apply_exif_orientation-HasPixel (suc (suc zero)) x y lx ly =
      flip_h-HasPixel clear img w h shape x y lx ly
  apply_exif_orientation-HasPixel (suc (suc (suc zero))) x y lx ly =
      rotate180-HasPixel clear img w h shape x y lx ly
  apply_exif_orientation-HasPixel (suc (suc (suc (suc zero)))) x y lx ly =
      flip_v-HasPixel clear img w h shape x y lx ly
  apply_exif_orientation-HasPixel (suc (suc (suc (suc (suc zero))))) x y lx ly =
      flip_rotate90 x y lx ly
  apply_exif_orientation-HasPixel (suc (suc (suc (suc (suc (suc zero)))))) x y lx ly =
      rotate90-HasPixel clear img w h shape x y lx ly
  apply_exif_orientation-HasPixel (suc (suc (suc (suc (suc (suc (suc zero))))))) x y lx ly =
      flip_rotate270 x y lx ly
  apply_exif_orientation-HasPixel (suc (suc (suc (suc (suc (suc (suc (suc zero)))))))) x y lx ly =
      rotate270-HasPixel clear img w h shape x y lx ly
  apply_exif_orientation-HasPixel (suc (suc (suc (suc (suc (suc (suc (suc (suc more))))))))) x y lx
        ly =
      unknown_orientation (suc (suc (suc (suc (suc (suc (suc (suc (suc more))))))))) x y
        (omega arith)
