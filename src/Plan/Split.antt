-- ===== src/Plan/Split.antt =====
-- Slicing a group into albums (internal/plan/build.go, `split`).
use tgup.Prelude.{
  ℕ, zero, suc, ◌+◌, ◌-◌, ◌*◌, ◌/◌, ◌^◌, ◌≤◌, ◌<◌, ◌≡◌, refl, sym, ap, List, [], ◌∷◌, All, concat,
  if◌then◌else◌, arith, Bool-cases, inl, inr, length, take, drop, length-take, length-drop,
  take-append-drop, ltb, tests, lt→ltb, Option-cases, some_inj, ◌∙◌, Option, none, some,
}
use mathlib.Core.Path.{subst}
use native.Mathlib.Nat.{
  zero-add, suc-add, add-sub_cancel_left, add-div_right, div-eq_of_lt, le-div_iff_mul-le,
}
use native.Mathlib.Numerals.{add-one}
use native.Mathlib.Decide.{dec_lt}
use tgup.Scan.Model.{Item}

-- The capacity of `make([][]scan.Item, 0, (len(items)+size-1)/size)` in 64-bit arithmetic: a
-- sum of 2 ^ 63 or more is negative, the quotient is rounded towards 0, and `make` panics
-- (`none`) on a negative capacity.
unfoldable pub chunk_capacity : ℕ → ℕ → Option ℕ
chunk_capacity n size =
    let sum = n + size - 1 in
    if ltb sum (2 ^ 63)
    then some (sum / size)
    else if ltb ((2 ^ 64 - sum) / size) 1
    then some 0
    else none

-- The loop, whose `start` grows by `size`. Fuel: `start` grows in each round, as `size` is not 0.
unfoldable pub split_from : ℕ → List Item → ℕ → ℕ → List (List Item)
split_from zero items size start = []
split_from (suc fuel) items size start =
    let rest = split_from fuel items size (start + size) in
    let end = if ltb (length items) (start + size) then length items else start + size in
    if ltb start (length items) then take (end - start) (drop start items) ∷ rest else []

unfoldable pub split : List Item → ℕ → Option (List (List Item))
unfolding chunk_capacity split_from
split [] size = some []
split (x ∷ xs) size = elim (chunk_capacity (length (x ∷ xs)) size) [
  | none ↦ none
  | some cap ↦ some (split_from (length (x ∷ xs)) (x ∷ xs) size 0)
]

-- A piece of an album's size, or what is left.
abbrev pub IsChunk : ℕ → List Item → Type 0
IsChunk size chunk = (0 < length chunk) × (length chunk ≤ size)

drop-all : (n : ℕ) (xs : List Item) → length xs ≤ n → drop n xs ≡ []
drop-all zero [] h = refl
drop-all zero (x ∷ xs) h = elim h [ ]
drop-all (suc n) [] h = refl
drop-all (suc n) (x ∷ xs) h = drop-all n xs (omega arith)

take-all : (n : ℕ) (xs : List Item) → length xs ≤ n → take n xs ≡ xs
take-all zero [] h = refl
take-all zero (x ∷ xs) h = elim h [ ]
take-all (suc n) [] h = refl
take-all (suc n) (x ∷ xs) h = ap (◌∷◌ x) (take-all n xs (omega arith))

drop-drop : (m n : ℕ) (xs : List Item) → drop n (drop m xs) ≡ drop (m + n) xs
drop-drop zero n xs = rw zero-add
drop-drop (suc m) zero [] = rw suc-add refl
drop-drop (suc m) (suc n) [] = rw suc-add refl
drop-drop (suc m) n (x ∷ xs) = rw suc-add (drop-drop m n xs)

-- The slice that a round takes is `take size` of what is left, the last one too.
chunk-eq-take :
    (items : List Item) (size start : ℕ)
    → let end = if ltb (length items) (start + size) then length items else start + size in
      take (end - start) (drop start items) ≡ take size (drop start items)
chunk-eq-take items size start = elim (Bool-cases (ltb (length items) (start + size))) [
  | inl over ↦ rw over (
      take-all _ (drop start items) (omega (arith, length-drop start items))
      ∙ sym (take-all size (drop start items) (omega (tests, over, length-drop start items))))
  | inr fits ↦ rw (fits, add-sub_cancel_left)
]

-- The number of albums for `d` items, rounded up.
ceil_done : (size : ℕ) → 0 < size → (0 + size - 1) / size ≡ 0
ceil_done size h = div-eq_of_lt (omega arith)

ceil_step :
    (d size : ℕ) → 0 < size → 0 < d → (d + size - 1) / size ≡ suc ((d - size + size - 1) / size)
ceil_step d size h k = elim (dec_lt d size) [
  | yes small ↦
      ap (λ n. n / size) (omega arith)
      ∙ add-div_right (d - 1) h
      ∙ add-one ((d - 1) / size)
      ∙ ap suc
          (div-eq_of_lt (omega arith) ∙ sym (ap (λ n. n / size) (omega arith) ∙ ceil_done size h))
  | no large ↦
      ap (λ n. n / size) (omega arith)
      ∙ add-div_right (d - 1) h
      ∙ add-one ((d - 1) / size)
      ∙ ap (λ n. suc (n / size)) (omega arith)
]

module _ (items : List Item) (size : ℕ) (pos : 0 < size) where
  split_from-concat :
      (fuel start : ℕ)
      → length items ≤ fuel + start
      → concat (split_from fuel items size start) ≡ drop start items
  unfolding split_from
  split_from-concat zero start h = sym (drop-all start items (omega arith))
  split_from-concat (suc fuel) start h = elim (Bool-cases (ltb start (length items))) [
    | inl more ↦
        rw
          (
            more,
            chunk-eq-take items size start,
            split_from-concat fuel (start + size) (omega arith),
            ← drop-drop start size items,
          )
          (take-append-drop size (drop start items))
    | inr done ↦ rw (done, drop-all start items (ground arith))
  ]

  split_from-IsChunk : (fuel start : ℕ) → All (IsChunk size) (split_from fuel items size start)
  unfolding split_from
  split_from-IsChunk zero start = tt
  split_from-IsChunk (suc fuel) start = elim (Bool-cases (ltb start (length items))) [
    | inl more ↦
        rw (more, chunk-eq-take items size start)
          (
            (
              omega (tests, more, length-take size (drop start items), length-drop start items),
              omega (arith, length-take size (drop start items)),
            ),
            split_from-IsChunk fuel (start + size),
          )
    | inr done ↦ rw done tt
  ]

  length-split_from :
      (fuel start : ℕ)
      → length items ≤ fuel + start
      → length (split_from fuel items size start) ≡ (length items - start + size - 1) / size
  unfolding split_from
  length-split_from zero start h =
      sym (ap (λ n. (n + size - 1) / size) (omega arith) ∙ ceil_done size pos)
  length-split_from (suc fuel) start h = elim (Bool-cases (ltb start (length items))) [
    | inl more ↦ rw more (
        ap suc (
          length-split_from fuel (start + size) (omega arith)
          ∙ ap (λ n. (n + size - 1) / size) (omega arith))
        ∙ sym (ceil_step (length items - start) size pos (omega (tests, more))))
    | inr done ↦ rw done (sym (ap (λ n. (n + size - 1) / size) (ground arith) ∙ ceil_done size pos))
  ]

-- A slice of at most 2 ^ 63 bytes less the album's size does not overflow.
chunk_capacity-IsSome :
    (n size : ℕ)
    → n + size ≤ 2 ^ 63
    → 0 < size
    → chunk_capacity n size ≡ some ((n + size - 1) / size)
unfolding chunk_capacity
chunk_capacity-IsSome n size h k = rw (lt→ltb (n + size - 1) (2 ^ 63) (omega arith))

-- What `split` returns, when it does not panic.
pub record IsSplit (items : List Item) (size : ℕ) (chunks : List (List Item)) : Type 0 where
  pub all : concat chunks ≡ items
  pub sizes : All (IsChunk size) chunks
  pub number : length chunks ≡ (length items + size - 1) / size

-- The pieces that `split` returns, for an album size above 0, make up the items in order; none is
-- empty or larger than the album size; and their number is the quotient rounded up.
pub split-IsSplit :
    (items : List Item) (size : ℕ) (chunks : List (List Item))
    → 0 < size
    → split items size ≡ some chunks
    → IsSplit items size chunks
unfolding split
split-IsSplit [] size chunks pos h =
    subst (IsSplit [] size) (some_inj h)
      (record { all = refl; sizes = tt; number = sym (ceil_done size pos) })
split-IsSplit (x ∷ xs) size chunks pos h =
    elim (Option-cases (chunk_capacity (length (x ∷ xs)) size)) [
      | inl panic ↦ absurd (cc (rw (panic, split) at h))
      | inr (n, e) ↦ subst (IsSplit (x ∷ xs) size) (some_inj (rw (e, split) at h)) (record {
        all = split_from-concat (x ∷ xs) size pos (length (x ∷ xs)) 0 (omega arith);
        sizes = split_from-IsChunk (x ∷ xs) size pos (length (x ∷ xs)) 0;
        number =
            length-split_from (x ∷ xs) size pos (length (x ∷ xs)) 0 (omega arith)
            ∙ ap (λ n. (n + size - 1) / size) (omega arith);
      })
    ]

-- `split` returns where the sum of its two numbers is no 64-bit overflow.
pub split-returns :
    (items : List Item) (size : ℕ)
    → 0 < size
    → length items + size ≤ 2 ^ 63
    → (chunks : List (List Item)) × (split items size ≡ some chunks)
unfolding split
split-returns [] size pos h = ([], refl)
split-returns (x ∷ xs) size pos h = (
  split_from (length (x ∷ xs)) (x ∷ xs) size 0,
  rw (chunk_capacity-IsSome (length (x ∷ xs)) size h pos, split),
)

-- The sum wraps to a negative number, at least as far below 0 as the album size.
pub chunk_capacity-IsNone :
    (n size : ℕ)
    → 0 < size
    → 2 ^ 63 < n + size
    → n + 2 * size ≤ 2 ^ 64 + 1
    → chunk_capacity n size ≡ none
unfolding chunk_capacity
chunk_capacity-IsNone n size pos over under =
    let one_or_more : 1 ≤ (2 ^ 64 - (n + size - 1)) / size =
      (le-div_iff_mul-le pos).1 (omega arith) in
    ground arith
