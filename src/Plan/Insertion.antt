-- ===== src/Plan/Insertion.antt =====
-- An insertion sort, which has the laws that are asked of `sort.Slice`; the tests of the plan and of
-- discovery run with it.
use mathlib.Core.List.{Perm, reverse, reverse_perm}
use mathlib.Core.List.Perm
use tgup.Prelude.{
  ◌≡◌, true, false, List, [], ◌∷◌, All, All-imp, if◌then◌else◌, Bool-cases, inl, inr,
}
use tgup.Scan.Model.{Item}
use tgup.Plan.Sort.{Less, IsStrictWeak, SortedBy, Sorter}

unfoldable pub insert_item : Less → Item → List Item → List Item
insert_item less x [] = x ∷ []
insert_item less x (y ∷ ys) =
    let rest = insert_item less x ys in if less y x then y ∷ rest else x ∷ y ∷ ys

unfoldable pub insertion : Less → List Item → List Item
unfolding insert_item
insertion less [] = []
insertion less (x ∷ xs) = insert_item less x (insertion less xs)

insert_item-perm : (less : Less) (x : Item) (xs : List Item) → Perm (insert_item less x xs) (x ∷ xs)
unfolding insert_item
insert_item-perm less x [] = Perm.refl _
insert_item-perm less x (y ∷ ys) = elim (Bool-cases (less y x)) [
  | inl before ↦
      rw before (Perm.trans (Perm.cons y (insert_item-perm less x ys)) (Perm.swap x y ys))
  | inr after ↦ rw after (Perm.refl _)
]

pub insertion-perm : (less : Less) (xs : List Item) → Perm (insertion less xs) xs
unfolding insertion
insertion-perm less [] = Perm.refl []
insertion-perm less (x ∷ xs) =
    Perm.trans (insert_item-perm less x (insertion less xs)) (Perm.cons x (insertion-perm less xs))

insert_item-All {ℓ} :
    (P : Item → Type ℓ) (less : Less) (x : Item) (xs : List Item)
    → P x
    → All P xs
    → All P (insert_item less x xs)
unfolding insert_item
insert_item-All P less x [] h k = (h, tt)
insert_item-All P less x (y ∷ ys) h k = elim (Bool-cases (less y x)) [
  | inl before ↦ rw before (k.0, insert_item-All P less x ys h k.1)
  | inr after ↦ rw after (h, k)
]

-- An item before another is not after it.
asymm : (less : Less) → IsStrictWeak less → (a b : Item) → less a b ≡ true → less b a ≡ false
asymm less w a b h = elim (Bool-cases (less b a)) [
  | inl back ↦ absurd (cc (w.trans a b a h back, w.irrefl a))
  | inr fine ↦ fine
]

insert_item-SortedBy :
    (less : Less)
    → IsStrictWeak less
    → (x : Item) (xs : List Item) → SortedBy less xs
    → SortedBy less (insert_item less x xs)
unfolding insert_item
insert_item-SortedBy less w x [] h = (tt, tt)
insert_item-SortedBy less w x (y ∷ ys) h = elim (Bool-cases (less y x)) [
  | inl before ↦ rw before (
    insert_item-All (λ z. less z y ≡ false) less x ys (asymm less w y x before) h.0,
    insert_item-SortedBy less w x ys h.1,
  )
  | inr after ↦ rw after ((after, All-imp _ _ (λ z e. w.negtrans z y x e after) ys h.0), h)
]

pub insertion-SortedBy :
    (less : Less) → IsStrictWeak less → (xs : List Item) → SortedBy less (insertion less xs)
unfolding insertion
insertion-SortedBy less w [] = tt
insertion-SortedBy less w (x ∷ xs) =
    insert_item-SortedBy less w x (insertion less xs) (insertion-SortedBy less w xs)

abbrev pub sorter : Sorter
sorter = record {
  sort = insertion;
  sort-perm = insertion-perm;
  sort-SortedBy = insertion-SortedBy;
  shuffle = reverse;
  shuffle-perm = λ xs. reverse_perm xs;
}
