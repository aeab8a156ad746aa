-- ===== src/Prelude/Lists.antt =====
-- Lists measured by native numbers, under the library's names, and predicates over lists.
use Prim.Native.Nat.{ℕ, zero, suc, ◌+◌, ◌-◌, ◌≤◌, min}
use mathlib.Core.Path.{◌≡◌, refl, sym, ap, ◌∙◌}
use mathlib.Core.Bool.{Bool, true, false}
use mathlib.Core.List.{List, [], ◌∷◌, ◌++◌, map, append_assoc, Perm, Permᴰ}
use native.Mathlib.Nat.{ℕ_set}
use mathlib.Core.Logic.{∥∥₁_elim}
use mathlib.Core.Option.{Option, none, some}
use native.Mathlib.Omega.{arith}
use mathlib.Core.Logic.{inl, inr}
use tgup.Prelude.Tests.{if◌then◌else◌, Bool-cases}

module _ {ℓ} {A : Type ℓ} where
  abbrev pub length : List A → ℕ
  length [] = 0
  length (x ∷ xs) = suc (length xs)

  abbrev pub get_elem? : List A → ℕ → Option A
  get_elem? [] i = none
  get_elem? (x ∷ xs) zero = some x
  get_elem? (x ∷ xs) (suc i) = get_elem? xs i

  abbrev pub take : ℕ → List A → List A
  take zero xs = []
  take (suc n) [] = []
  take (suc n) (x ∷ xs) = x ∷ take n xs

  abbrev pub drop : ℕ → List A → List A
  drop zero xs = xs
  drop (suc n) [] = []
  drop (suc n) (x ∷ xs) = drop n xs

  pub length-append : (xs ys : List A) → length (xs ++ ys) ≡ length xs + length ys
  length-append [] ys = omega arith
  length-append (x ∷ xs) ys = omega (arith, length-append xs ys)

  pub take-append-drop : (n : ℕ) (xs : List A) → take n xs ++ drop n xs ≡ xs
  take-append-drop zero xs = refl
  take-append-drop (suc n) [] = refl
  take-append-drop (suc n) (x ∷ xs) = rw (take-append-drop n xs)

  pub length-take : (n : ℕ) (xs : List A) → length (take n xs) ≡ min n (length xs)
  length-take zero xs = omega arith
  length-take (suc n) [] = omega arith
  length-take (suc n) (x ∷ xs) = omega (arith, length-take n xs)

  pub length-drop : (n : ℕ) (xs : List A) → length (drop n xs) ≡ length xs - n
  length-drop zero xs = omega arith
  length-drop (suc n) [] = omega arith
  length-drop (suc n) (x ∷ xs) = omega (arith, length-drop n xs)

  -- The elements that pass a Boolean test, in order, and their number.
  abbrev pub keep : (A → Bool) → List A → List A
  keep p [] = []
  keep p (x ∷ xs) = let rest = keep p xs in if p x then x ∷ rest else rest

  abbrev pub count_if : (A → Bool) → List A → ℕ
  count_if p [] = 0
  count_if p (x ∷ xs) = let rest = count_if p xs in if p x then suc rest else rest

  pub keep-append : (p : A → Bool) (xs ys : List A) → keep p (xs ++ ys) ≡ keep p xs ++ keep p ys
  keep-append p [] ys = refl
  keep-append p (x ∷ xs) ys = elim (Bool-cases (p x)) [
    | inl yes' ↦ rw (yes', keep-append p xs ys)
    | inr no' ↦ rw (no', keep-append p xs ys)
  ]

  pub length-keep : (p : A → Bool) (xs : List A) → length (keep p xs) ≡ count_if p xs
  length-keep p [] = refl
  length-keep p (x ∷ xs) = elim (Bool-cases (p x)) [
    | inl yes' ↦ rw (yes', length-keep p xs)
    | inr no' ↦ rw (no', length-keep p xs)
  ]

  pub count_if-le : (p : A → Bool) (xs : List A) → count_if p xs ≤ length xs
  count_if-le p [] = omega arith
  count_if-le p (x ∷ xs) = ground (arith, count_if-le p xs)

-- A predicate that holds of every element.
abbrev pub All {ℓ κ} : {A : Type ℓ} → (A → Type κ) → List A → Type κ
All P [] = Unit
All P (x ∷ xs) = P x × All P xs

module _ {ℓ κ} {A : Type ℓ} (P : A → Type κ) where
  pub All-append : (xs ys : List A) → All P xs → All P ys → All P (xs ++ ys)
  All-append [] ys h k = k
  All-append (x ∷ xs) ys h k = (h.0, All-append xs ys h.1 k)

module _ {ℓ κ} {A : Type ℓ} (P : A → Type κ) where
  pub All-split : (xs ys : List A) → All P (xs ++ ys) → All P xs × All P ys
  All-split [] ys h = (tt, h)
  All-split (x ∷ xs) ys (h, hs) = let (a, b) = All-split xs ys hs in ((h, a), b)

module _ {ℓ κ μ} {A : Type ℓ} (P : A → Type κ) (Q : A → Type μ) where
  pub All-both : (xs : List A) → All P xs → All Q xs → All (λ x. P x × Q x) xs
  All-both [] h k = tt
  All-both (x ∷ xs) h k = ((h.0, k.0), All-both xs h.1 k.1)

  pub All-imp : ((x : A) → P x → Q x) → (xs : List A) → All P xs → All Q xs
  All-imp f [] h = tt
  All-imp f (x ∷ xs) h = (f x h.0, All-imp f xs h.1)

module _ {ℓ κ μ} {A : Type ℓ} {B : Type κ} (f : A → B) (P : B → Type μ) where
  pub All-map : (xs : List A) → All P (map f xs) → All (λ x. P (f x)) xs
  All-map [] h = tt
  All-map (x ∷ xs) h = (h.0, All-map xs h.1)

-- All lists of a list, in order.
abbrev pub concat {ℓ} : {A : Type ℓ} → List (List A) → List A
concat [] = []
concat (xs ∷ xss) = xs ++ concat xss

pub concat-append {ℓ} :
    {A : Type ℓ} (xss yss : List (List A)) → concat (xss ++ yss) ≡ concat xss ++ concat yss
concat-append [] yss = refl
concat-append (xs ∷ xss) yss = rw (concat-append xss yss) (sym (append_assoc xs _ _))

-- Rearranging changes no length and no count of the elements that pass a test.
Permᴰ-count_if {ℓ} :
    {A : Type ℓ} (p : A → Bool) {xs ys : List A} → Permᴰ xs ys → count_if p xs ≡ count_if p ys
Permᴰ-count_if p Permᴰ.nil = refl
Permᴰ-count_if p (Permᴰ.cons e h) = rw (e, Permᴰ-count_if p h)
Permᴰ-count_if p (Permᴰ.swap {a = a} {b = b} e f) = rw (e, f) (ground arith)
Permᴰ-count_if p (Permᴰ.trans h k) = Permᴰ-count_if p h ∙ Permᴰ-count_if p k

pub Perm-count_if {ℓ} :
    {A : Type ℓ} (p : A → Bool) {xs ys : List A} → Perm xs ys → count_if p xs ≡ count_if p ys
Perm-count_if p h = ∥∥₁_elim h (ℕ_set _ _) (Permᴰ-count_if p)

length-count_if {ℓ} : {A : Type ℓ} (xs : List A) → length xs ≡ count_if (λ x. true) xs
length-count_if [] = refl
length-count_if (x ∷ xs) = ap suc (length-count_if xs)

pub Perm-length {ℓ} : {A : Type ℓ} {xs ys : List A} → Perm xs ys → length xs ≡ length ys
Perm-length {xs = xs} {ys = ys} h =
    length-count_if xs ∙ Perm-count_if (λ x. true) h ∙ sym (length-count_if ys)

module _ {ℓ κ} {A : Type ℓ} (P : A → Type κ) where
  All-left : (xs ys : List A) → All P (xs ++ ys) → All P xs × All P ys
  All-left [] ys h = (tt, h)
  All-left (x ∷ xs) ys h = let (l, r) = All-left xs ys h.1 in ((h.0, l), r)

  -- What holds of all elements of all lists holds in each list.
  pub All-concat : (xss : List (List A)) → All P (concat xss) → All (All P) xss
  All-concat [] h = tt
  All-concat (xs ∷ xss) h = let (l, r) = All-left xs (concat xss) h in (l, All-concat xss r)

module _ {ℓ} {A : Type ℓ} where
  pub count_if-map {κ} :
      {B : Type κ} (f : A → B) (p : B → Bool) (xs : List A)
      → count_if p (map f xs) ≡ count_if (λ x. p (f x)) xs
  count_if-map f p [] = refl
  count_if-map f p (x ∷ xs) = rw (count_if-map f p xs)

  pub count_if-imp :
      (p q : A → Bool) (xs : List A)
      → ((x : A) → p x ≡ true → q x ≡ true)
      → count_if p xs ≤ count_if q xs
  count_if-imp p q [] h = omega arith
  count_if-imp p q (x ∷ xs) h = elim (Bool-cases (p x)) [
    | inl both ↦ rw (both, h x both) (omega (arith, count_if-imp p q xs h))
    | inr one ↦ rw one (ground (arith, count_if-imp p q xs h))
  ]

  pub count_if-All :
      (p q : A → Bool) (xs : List A)
      → All (λ x. p x ≡ true → q x ≡ true) xs
      → count_if p xs ≤ count_if q xs
  count_if-All p q [] h = omega arith
  count_if-All p q (x ∷ xs) h = elim (Bool-cases (p x)) [
    | inl both ↦ rw (both, h.0 both) (omega (arith, count_if-All p q xs h.1))
    | inr one ↦ rw one (ground (arith, count_if-All p q xs h.1))
  ]

  pub count_if-eq_zero :
      (p : A → Bool) (xs : List A) → count_if p xs ≡ 0 → All (λ x. p x ≡ false) xs
  count_if-eq_zero p [] h = tt
  count_if-eq_zero p (x ∷ xs) h = elim (Bool-cases (p x)) [
    | inl found ↦ absurd (ground arith)
    | inr fine ↦ (fine, count_if-eq_zero p xs (ground arith))
  ]

  pub count_if-append :
      (p : A → Bool) (xs ys : List A) → count_if p (xs ++ ys) ≡ count_if p xs + count_if p ys
  count_if-append p [] ys = omega arith
  count_if-append p (x ∷ xs) ys = elim (Bool-cases (p x)) [
    | inl counted ↦ rw counted (omega (arith, count_if-append p xs ys))
    | inr skipped ↦ rw skipped (count_if-append p xs ys)
  ]

  pub All-count_if : (p : A → Bool) (xs : List A) → All (λ x. p x ≡ false) xs → count_if p xs ≡ 0
  All-count_if p [] h = refl
  All-count_if p (x ∷ xs) h = rw h.0 (All-count_if p xs h.1)

  -- A function that changes no element.
  pub map-fixed : (f : A → A) (xs : List A) → All (λ x. f x ≡ x) xs → map f xs ≡ xs
  map-fixed f [] h = refl
  map-fixed f (x ∷ xs) h = rw (h.0, map-fixed f xs h.1)

pub length-map {ℓ κ} :
    {A : Type ℓ} {B : Type κ} (f : A → B) (xs : List A) → length (map f xs) ≡ length xs
length-map f [] = refl
length-map f (x ∷ xs) = ap suc (length-map f xs)
