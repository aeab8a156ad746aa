-- ===== src/Media/Loops.antt =====
-- The loops over the pixels of a picture (internal/media/image.go: the bodies of `rotate90` and
-- the functions like it).
use tgup.Prelude.{
  ℕ, zero, suc, ◌+◌, ◌-◌, ◌≤◌, ◌<◌, ◌≡◌, ◌≢◌, ◌⊎◌, refl, ◌∙◌, inl, inr, true, ◌==◌, arith,
  Bool-cases,
}
use tgup.Media.Orient.{Picture, for_each, width, height, new_rgba, contains, set, each_pixel}

module _ {ℓ κ} {S : Type ℓ} (Q : S → Type κ) (body : ℕ → S → S) where
  -- What every round in the range keeps.
  for_each-keep :
      (n i : ℕ) (s : S)
      → ((j : ℕ) (t : S) → i ≤ j → j < i + n → Q t → Q (body j t))
      → Q s
      → Q (for_each n i body s)
  unfolding for_each
  for_each-keep zero i s keeps q = q
  for_each-keep (suc n) i s keeps q =
      for_each-keep n (suc i) (body i s) (λ j t le lt. keeps j t (omega arith) (omega arith))
        (keeps i s (omega arith) (omega arith) q)

module _ {ℓ κ μ} {S : Type ℓ} (D : S → Type κ) (Q : S → Type μ) (body : ℕ → S → S) where
  -- What one round brings about, and the others keep.
  for_each-hit :
      (a n i : ℕ) (s : S)
      → ((j : ℕ) (t : S) → i ≤ j → j < i + n → D t → D (body j t))
      → ((t : S) → D t → Q (body a t))
      → ((j : ℕ) (t : S) → i ≤ j → j < i + n → j ≢ a → Q t → Q (body j t))
      → i ≤ a
      → a < i + n
      → D s
      → Q (for_each n i body s)
  unfolding for_each
  for_each-hit a zero i s shape hit keeps le lt d = absurd (omega arith)
  for_each-hit a (suc n) i s shape hit keeps le lt d = elim (Bool-cases (a == i)) [
    | inl now ↦
        for_each-keep Q body n (suc i) (body i s)
          (λ j t low high. keeps j t (omega arith) (omega arith) (ground arith))
          (let same : a ≡ i = ground arith in rw (← same) (hit s d))
    | inr later ↦
        for_each-hit a n (suc i) (body i s) (λ j t low high. shape j t (omega arith) (omega arith))
          hit (λ j t low high. keeps j t (omega arith) (omega arith)) (ground arith) (omega arith)
          (shape i s (omega arith) (omega arith) d)
  ]

module _ {A : Type 0} where
  -- A picture at the origin of a width and a height.
  abbrev pub HasShape : ℕ → ℕ → Picture A → Type 0
  HasShape w h p = (p.min_x ≡ 0) × (p.min_y ≡ 0) × (p.max_x ≡ w) × (p.max_y ≡ h)

  abbrev pub HasPixel : ℕ → ℕ → ℕ → ℕ → A → Picture A → Type 0
  HasPixel w h x y colour p = HasShape w h p × (p.at x y ≡ colour)

  set-HasShape :
      (w h x y : ℕ) (colour : A) (p : Picture A) → HasShape w h p → HasShape w h (set p x y colour)
  unfolding set
  set-HasShape w h x y colour p s = elim (Bool-cases (contains p x y)) [
    | inl inside ↦ rw inside s
    | inr outside ↦ rw outside s
  ]

  set-at :
      (x y : ℕ) (colour : A) (p : Picture A)
      → contains p x y ≡ true
      → (set p x y colour).at x y ≡ colour
  unfolding set
  set-at x y colour p inside = rw inside (ground arith)

  set-at_other :
      (x y u v : ℕ) (colour : A) (p : Picture A)
      → (u ≢ x) ⊎ (v ≢ y)
      → (set p u v colour).at x y ≡ p.at x y
  unfolding set
  set-at_other x y u v colour p ne = elim (Bool-cases (contains p u v)) [
    | inl inside ↦ rw inside (ground arith)
    | inr outside ↦ rw outside refl
  ]

  shape-contains :
      (w h x y : ℕ) (p : Picture A) → x < w → y < h → HasShape w h p → contains p x y ≡ true
  unfolding contains
  shape-contains w h x y p lx ly s = ground arith

  set-HasPixel :
      (w h x y : ℕ) (colour : A) (p : Picture A)
      → x < w
      → y < h
      → HasShape w h p
      → HasPixel w h x y colour (set p x y colour)
  set-HasPixel w h x y colour p lx ly s =
      (set-HasShape w h x y colour p s, set-at x y colour p (shape-contains w h x y p lx ly s))

  set-other :
      (w h x y u v : ℕ) (colour other : A) (p : Picture A)
      → (u ≢ x) ⊎ (v ≢ y)
      → HasPixel w h x y colour p
      → HasPixel w h x y colour (set p u v other)
  set-other w h x y u v colour other p ne (s, e) =
      (set-HasShape w h u v other p s, set-at_other x y u v other p ne ∙ e)

  -- Where every pixel of a picture at the origin is set at a place of its own, the place of a
  -- pixel ends up with its colour.
  pub each_pixel-HasPixel :
      (clear : A) (img : Picture A) (fx fy : ℕ → ℕ → ℕ) (w h a b : ℕ)
      → img.min_x ≡ 0
      → img.min_y ≡ 0
      → a < img.max_x
      → b < img.max_y
      → fx a b < w
      → fy a b < h
      → ((x y : ℕ)
          → x < img.max_x
          → y < img.max_y
          → (x ≢ a) ⊎ (y ≢ b)
          → (fx x y ≢ fx a b) ⊎ (fy x y ≢ fy a b))
      → HasPixel w h
          (fx a b)
          (fy a b)
          (img.at a b)
          (each_pixel img (λ x y dst. set dst (fx x y) (fy x y) (img.at x y)) (new_rgba clear w h))
  unfolding each_pixel width height new_rgba
  each_pixel-HasPixel clear img fx fy w h a b ox oy la lb lx ly apart =
      for_each-hit (HasShape w h) (HasPixel w h (fx a b) (fy a b) (img.at a b)) _ b
        (img.max_y - img.min_y) img.min_y _
        (λ y t low high.
          for_each-keep (HasShape w h) (λ x dst. set dst (fx x y) (fy x y) (img.at x y))
            (img.max_x - img.min_x) img.min_x t
            (λ x r l k. set-HasShape w h (fx x y) (fy x y) (img.at x y) r))
        (λ t.
          for_each-hit (HasShape w h) (HasPixel w h (fx a b) (fy a b) (img.at a b)) _ a
            (img.max_x - img.min_x) img.min_x t
            (λ x r l k. set-HasShape w h (fx x b) (fy x b) (img.at x b) r)
            (λ r. set-HasPixel w h (fx a b) (fy a b) (img.at a b) r lx ly)
            (λ x r l k ne.
              set-other w h _ _ (fx x b) (fy x b) _ _ r (apart x b (omega arith) lb (inl ne)))
            (omega arith) (omega arith))
        (λ y t low high ne.
          for_each-keep (HasPixel w h (fx a b) (fy a b) (img.at a b)) _ (img.max_x - img.min_x)
            img.min_x t
            (λ x r l k.
              set-other w h _ _ (fx x y) (fy x y) _ _ r
                (apart x y (omega arith) (omega arith) (inr ne))))
        (omega arith) (omega arith) (refl, refl, refl, refl)
