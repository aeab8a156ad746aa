-- ===== src/Media/Fit.antt =====
-- The limits on a photo and the sizes that an image is scaled to (internal/media/image.go:
-- `needsCompress`, `aspectRatio`, `fitSumWH`, `fitLongEdge`). The dimensions of a decoded image
-- are natural numbers. An aspect ratio is the pair of its numerator and denominator.
use Prim.Native.Nat.{max}
use native.Mathlib.Nat.{div-le_of_le-mul, lt_of_mul-lt-mul_left}
use native.Mathlib.Omega.{arith}
use native.Mathlib.Nat as N
use tgup.Prelude.{
  ℕ, zero, suc, Bool-cases, ◌+◌, ◌*◌, ◌/◌, ◌^◌, ◌≤◌, ◌<◌, ◌≡◌, ◌⊎◌, inl, inr, Bool, ◌&&◌, ◌||◌, ltb,
  leb, ◌==◌, if◌then◌else◌,
}

abbrev pub detect_sum_wh : ℕ
detect_sum_wh = 10000

abbrev pub target_sum_wh : ℕ
target_sum_wh = 9600

abbrev pub max_aspect_ratio : ℕ
max_aspect_ratio = 20

abbrev pub max_photo_bytes : ℕ
max_photo_bytes = 9500000

abbrev pub fallback_edge : ℕ
fallback_edge = 2560

-- `needsCompress`.
unfoldable pub needs_compress : ℕ → ℕ → ℕ → ℕ → Bool
needs_compress w h size max_sum = ltb max_sum (w + h) || ltb max_photo_bytes size

-- `aspectRatio`, as a quotient.
unfoldable pub aspect_ratio : ℕ → ℕ → ℕ × ℕ
aspect_ratio w h = if w == 0 || h == 0 then (0, 1) else if leb h w then (w, h) else (h, w)

-- `aspectRatio(w, h) > maxAspectRatio`.
unfoldable pub too_long : ℕ × ℕ → Bool
too_long (n, d) = ltb (max_aspect_ratio * d) n

-- `fitLongEdge`.
unfoldable pub fit_long_edge : ℕ → ℕ → ℕ → ℕ × ℕ
fit_long_edge w h max_edge =
    if leb w max_edge && leb h max_edge
    then (w, h)
    else if leb h w
    then (max_edge, max (h * max_edge / w) 1)
    else (max (w * max_edge / h) 1, max_edge)

-- `scaled x m n` stands for `int(float64(x) * (float64(m) / float64(n)))`.
module _ (scaled : ℕ → ℕ → ℕ → ℕ) where
  -- `fitSumWH`.
  unfoldable pub fit_sum_wh : ℕ → ℕ → ℕ → ℕ × ℕ
  fit_sum_wh w h max_sum =
      if leb (w + h) max_sum
      then (w, h)
      else (max (scaled w max_sum (w + h)) 1, max (scaled h max_sum (w + h)) 1)

-- What is known of `scaled`: below 2 ^ 40 the two roundings of the quotient and of the product
-- move the result by less than a half, before its fraction is cut off.
pub record Rounding (scaled : ℕ → ℕ → ℕ → ℕ) : Type 0 where
  pub over :
      (x m n : ℕ) → x ≤ n → m ≤ n → 0 < n → n < 2 ^ 40 → 2 * (n * scaled x m n) < 2 * (x * m) + n
  pub under :
      (x m n : ℕ)
      → x ≤ n
      → m ≤ n
      → 0 < n
      → n < 2 ^ 40
      → 2 * (x * m) < 2 * (n * scaled x m n) + 3 * n

scaled_le : (a e b : ℕ) → a ≤ b → a * e / b ≤ e
scaled_le a e b h = div-le_of_le-mul b (N.mul-le-mul_right e h)

-- Both dimensions of an image with pixels stay between 1 and the long edge that is asked for, an
-- image within it keeps its size, and where it was larger one of the edges is that bound.
pub fit_long_edge-bounds :
    (w h max_edge : ℕ)
    → 1 ≤ w
    → 1 ≤ h
    → 1 ≤ max_edge
    → (1 ≤ (fit_long_edge w h max_edge).0)
      × ((fit_long_edge w h max_edge).0 ≤ max_edge)
      × (1 ≤ (fit_long_edge w h max_edge).1)
      × ((fit_long_edge w h max_edge).1 ≤ max_edge)
      × (w ≤ max_edge → h ≤ max_edge → fit_long_edge w h max_edge ≡ (w, h))
      × ((max_edge < w) ⊎ (max_edge < h)
          → ((fit_long_edge w h max_edge).0 ≡ max_edge)
            ⊎ ((fit_long_edge w h max_edge).1 ≡ max_edge))
unfolding fit_long_edge
fit_long_edge-bounds w h m p q e = ground (arith, scaled_le h m w, scaled_le w m h)

-- A rounded-down result that is not far below the quotient is no zero.
result_pos : (s x m n : ℕ) → n ≤ 21 * x → 42 ≤ m → 0 < n → 2 * (x * m) < 2 * (n * s) + 3 * n → 1 ≤ s
result_pos zero x m n near enough some_left a = absurd (omega (arith, N.mul-le-mul_left x enough))
result_pos (suc s) x m n near enough some_left a = omega arith

module _ (scaled : ℕ → ℕ → ℕ → ℕ) (laws : Rounding scaled) where
  scaled-add_le :
      (w h m : ℕ) → m < w + h → w + h < 2 ^ 40 → scaled w m (w + h) + scaled h m (w + h) ≤ m
  scaled-add_le w h m big small =
      let a = laws.over w m (w + h) (omega arith) (omega arith) (omega arith) small in
      let b = laws.over h m (w + h) (omega arith) (omega arith) (omega arith) small in
      let total : (w + h) * (scaled w m (w + h) + scaled h m (w + h)) < (w + h) * (m + 1) =
        omega arith in
      omega (arith, lt_of_mul-lt-mul_left (w + h) total)

  scaled_pos : (x m n : ℕ) → x ≤ n → n ≤ 21 * x → m < n → 42 ≤ m → n < 2 ^ 40 → 1 ≤ scaled x m n
  scaled_pos x m n le near big enough small =
      result_pos (scaled x m n) x m n near enough (omega arith)
        (laws.under x m n le (omega arith) (omega arith) small)

  -- Where neither edge is more than twenty times the other, scaling to a sum of at least 42 keeps
  -- both dimensions positive and their sum within the one that is asked for.
  pub fit_sum_wh-bounds :
      (w h max_sum : ℕ)
      → 1 ≤ w
      → w ≤ 20 * h
      → h ≤ 20 * w
      → 42 ≤ max_sum
      → w + h < 2 ^ 40
      → (1 ≤ (fit_sum_wh scaled w h max_sum).0)
        × (1 ≤ (fit_sum_wh scaled w h max_sum).1)
        × ((fit_sum_wh scaled w h max_sum).0 + (fit_sum_wh scaled w h max_sum).1 ≤ max_sum)
  unfolding fit_sum_wh
  fit_sum_wh-bounds w h m p a b e small = elim (Bool-cases (leb (w + h) m)) [
    | inl fits ↦ ground arith
    | inr large ↦ ground (
      arith,
      scaled-add_le w h m (ground arith) small,
      scaled_pos w m (w + h) (omega arith) (omega arith) (ground arith) e small,
      scaled_pos h m (w + h) (omega arith) (omega arith) (ground arith) e small,
    )
  ]
