-- ===== src/Plan/Group.antt =====
-- Grouping by directory (internal/plan/build.go, lines 42 to 53). The map `grouped` and the slice
-- `order` of its keys in the order of their first items are one list of groups.
use mathlib.Core.List.{Perm, perm_middle, append-nil, append_assoc}
use mathlib.Core.List.Perm
use tgup.Prelude.{
  ◌≡◌, sym, Bool, true, false, ◌&&◌, List, [], ◌∷◌, ◌++◌, All, concat, keep, All-append, ◌↔◌,
  if◌then◌else◌, arith, Bool-cases, inl, inr, map, ◌≢◌,
}
use tgup.Prelude.Text.{text_eq, text_eq_iff, text_eq_refl}
use tgup.Scan.Model.{Item}
use tgup.Plan.Model.{GroupKey}

unfoldable pub key_of : Item → GroupKey
key_of item = record { src_root = item.src_root; parent_dir = item.parent_dir }

unfoldable pub key_eq : GroupKey → GroupKey → Bool
key_eq a b = text_eq a.src_root b.src_root && text_eq a.parent_dir b.parent_dir

abbrev pub Group : Type 0
Group = GroupKey × List Item

-- `grouped[key] = append(grouped[key], item)`, and `order = append(order, key)` for a new key.
unfoldable pub add_item : Item → List Group → List Group
add_item item [] = (key_of item, item ∷ []) ∷ []
add_item item ((key, items) ∷ groups) =
    let rest = add_item item groups in
    if key_eq key (key_of item) then (key, items ++ item ∷ []) ∷ groups else (key, items) ∷ rest

unfoldable pub group_from : List Group → List Item → List Group
group_from groups [] = groups
group_from groups (item ∷ items) = group_from (add_item item groups) items

unfoldable pub group : List Item → List Group
unfolding group_from
group items = group_from [] items

pub key_eq→eq : (a b : GroupKey) → key_eq a b ≡ true → a ≡ b
unfolding key_eq
key_eq→eq a b h =
    ground (arith, text_eq_iff a.src_root b.src_root, text_eq_iff a.parent_dir b.parent_dir)

pub key_eq_refl : (a : GroupKey) → key_eq a a ≡ true
unfolding key_eq
key_eq_refl a = ground (arith, text_eq_refl a.src_root, text_eq_refl a.parent_dir)

abbrev pub items_of : Group → List Item
items_of g = g.1

-- The items of a group, in order, are those of the list that have its key.
abbrev pub in_group : GroupKey → Item → Bool
in_group key item = key_eq key (key_of item)

-- What the items with one key are among the groups.
abbrev pub find_group : GroupKey → List Group → List Item
find_group key [] = []
find_group key ((k, items) ∷ groups) =
    let rest = find_group key groups in if key_eq k key then items else rest

pub key_eq_iff : (a b : GroupKey) → (key_eq a b ≡ true) ↔ (a ≡ b)
key_eq_iff a b = (key_eq→eq a b, λ e. rw (← e) (key_eq_refl a))

find_group-add_item :
    (key : GroupKey) (item : Item) (groups : List Group)
    → find_group key (add_item item groups)
      ≡ find_group key groups ++ (if in_group key item then item ∷ [] else [])
unfolding add_item
find_group-add_item key item [] =
    ground (arith, key_eq_iff (key_of item) key, key_eq_iff key (key_of item))
find_group-add_item key item ((k, items) ∷ groups) = ground (
  arith,
  key_eq_iff k (key_of item),
  key_eq_iff k key,
  key_eq_iff key (key_of item),
  find_group-add_item key item groups,
  append-nil items,
  append-nil (find_group key groups),
)

find_group-group_from :
    (key : GroupKey) (groups : List Group) (items : List Item)
    → find_group key (group_from groups items) ≡ find_group key groups ++ keep (in_group key) items
unfolding group_from
find_group-group_from key groups [] = sym (append-nil (find_group key groups))
find_group-group_from key groups (item ∷ items) =
    rw (find_group-group_from key (add_item item groups) items, find_group-add_item key item groups)
      (elim (Bool-cases (in_group key item)) [
        | inl same ↦ rw (same, append_assoc)
        | inr other ↦ rw (other, append-nil)
      ])

-- Grouping keeps, under each key, the items with that key in their order.
pub find_group-group :
    (key : GroupKey) (items : List Item) → find_group key (group items) ≡ keep (in_group key) items
unfolding group
find_group-group key items = find_group-group_from key [] items

abbrev pub all_items : List Group → List Item
all_items groups = concat (map items_of groups)

add_item-perm :
    (item : Item) (groups : List Group)
    → Perm (all_items (add_item item groups)) (item ∷ all_items groups)
unfolding add_item
add_item-perm item [] = Perm.refl _
add_item-perm item ((k, items) ∷ groups) = elim (Bool-cases (key_eq k (key_of item))) [
  | inl same ↦ rw (same, append_assoc) (perm_middle items (all_items groups))
  | inr other ↦ rw other (
      Perm.trans (Perm.append_left items (add_item-perm item groups))
        (perm_middle items (all_items groups)))
]

group_from-perm :
    (groups : List Group) (items : List Item)
    → Perm (all_items (group_from groups items)) (all_items groups ++ items)
unfolding group_from
group_from-perm groups [] = rw append-nil (Perm.refl _)
group_from-perm groups (item ∷ items) = Perm.trans (group_from-perm (add_item item groups) items) (
    Perm.trans (Perm.append_right items (add_item-perm item groups))
      (Perm.symm (perm_middle (all_items groups) items)))

-- Grouping loses and repeats no item.
pub group-perm : (items : List Item) → Perm (all_items (group items)) items
unfolding group
group-perm items = group_from-perm [] items

abbrev pub IsFresh : GroupKey → List Group → Type 0
IsFresh key groups = All (λ g. key_eq key g.0 ≡ false) groups

-- No group is empty, a group holds items with its key only, and no two groups share a key.
abbrev pub AreGrouped : List Group → Type 0
AreGrouped [] = Unit
AreGrouped ((key, items) ∷ groups) =
    (items ≢ []) × All (λ i. in_group key i ≡ true) items × IsFresh key groups × AreGrouped groups

add_item-IsFresh :
    (key : GroupKey) (item : Item) (groups : List Group)
    → key_eq key (key_of item) ≡ false
    → IsFresh key groups
    → IsFresh key (add_item item groups)
unfolding add_item
add_item-IsFresh key item [] h f = (h, tt)
add_item-IsFresh key item ((k, items) ∷ groups) h f = elim (Bool-cases (key_eq k (key_of item))) [
  | inl same ↦ rw same (f.0, f.1)
  | inr other ↦ rw other (f.0, add_item-IsFresh key item groups h f.1)
]

append-ne-nil : (xs : List Item) (x : Item) → xs ++ x ∷ [] ≢ []
append-ne-nil [] x e = cc
append-ne-nil (y ∷ ys) x e = cc

add_item-AreGrouped :
    (item : Item) (groups : List Group) → AreGrouped groups → AreGrouped (add_item item groups)
unfolding add_item
add_item-AreGrouped item [] g = ((λ e. cc), (key_eq_refl (key_of item), tt), tt, tt)
add_item-AreGrouped item ((k, items) ∷ groups) g = elim (Bool-cases (key_eq k (key_of item))) [
  | inl same ↦ rw same (
    append-ne-nil items item,
    All-append (λ i. in_group k i ≡ true) items _ g.1 (same, tt),
    g.2,
    g.3,
  )
  | inr other ↦
      rw other
        (g.0, g.1, add_item-IsFresh k item groups other g.2, add_item-AreGrouped item groups g.3)
]

group_from-AreGrouped :
    (groups : List Group) (items : List Item)
    → AreGrouped groups
    → AreGrouped (group_from groups items)
unfolding group_from
group_from-AreGrouped groups [] g = g
group_from-AreGrouped groups (item ∷ items) g =
    group_from-AreGrouped (add_item item groups) items (add_item-AreGrouped item groups g)

pub group-AreGrouped : (items : List Item) → AreGrouped (group items)
unfolding group
group-AreGrouped items = group_from-AreGrouped [] items tt
