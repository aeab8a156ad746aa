-- ===== src/Plan/Sort.antt =====
-- The orders of a plan (internal/plan/build.go, sortItems, and internal/plan/sort.go). Package
-- sort and package math/rand enter by what they document: `sort.Slice` rearranges the items
-- so that they stand in the order of `less`, when that is a strict weak order, and ties may fall
-- either way; `Shuffle` rearranges.
use mathlib.Core.List.{Perm, reverse}
use tgup.Prelude.{◌≡◌, Bool, true, false, List, [], ◌∷◌, All, if◌then◌else◌, ltb, ◌==◌}
use tgup.Prelude.Text.{Text, codes, text_eq, text_ltb, to_lower, trim_space}
use tgup.Prelude.Int.{ltb_ℤ, eq_ℤ}
use tgup.Scan.Model.{Item}

abbrev pub Less : Type 0
Less = Item → Item → Bool

pub record IsStrictWeak (less : Less) : Type 0 where
  pub irrefl : (a : Item) → less a a ≡ false
  pub trans : (a b c : Item) → less a b ≡ true → less b c ≡ true → less a c ≡ true
  pub negtrans : (a b c : Item) → less a b ≡ false → less b c ≡ false → less a c ≡ false

-- No item stands after one that it is less than.
abbrev pub SortedBy : Less → List Item → Type 0
SortedBy less [] = Unit
SortedBy less (x ∷ xs) = All (λ y. less y x ≡ false) xs × SortedBy less xs

pub record Sorter : Type 0 where
  pub sort : Less → List Item → List Item
  pub sort-perm : (less : Less) (xs : List Item) → Perm (sort less xs) xs
  pub sort-SortedBy :
      (less : Less) → IsStrictWeak less → (xs : List Item) → SortedBy less (sort less xs)
  pub shuffle : List Item → List Item
  pub shuffle-perm : (xs : List Item) → Perm (shuffle xs) xs

unfoldable pub less_mtime : Less
less_mtime a b =
    if eq_ℤ a.mtime_ns b.mtime_ns then text_ltb a.path b.path else ltb_ℤ a.mtime_ns b.mtime_ns

unfoldable pub less_size : Less
less_size a b = if a.size == b.size then text_ltb a.path b.path else ltb a.size b.size

unfoldable pub less_name : Less
less_name a b =
    if text_eq a.path b.path then ltb_ℤ a.mtime_ns b.mtime_ns else text_ltb a.path b.path

-- The cases of the switch in `sortItems`.
pub data OrderKind : Type 0 where
  mtime size random name : OrderKind

unfoldable pub order_kind : Text → OrderKind
order_kind order =
    let o = to_lower (trim_space order) in
    if text_eq o (codes "mtime")
    then mtime
    else if text_eq o (codes "size")
    then size
    else if text_eq o (codes "random")
    then random
    else name

unfoldable pub arrange : Sorter → OrderKind → List Item → List Item
arrange s mtime items = s.sort less_mtime items
arrange s size items = s.sort less_size items
arrange s random items = s.shuffle items
arrange s name items = s.sort less_name items

-- `SortItems`: `cloneItems`, then `sortItems`; the loop that swaps from both ends reverses.
unfoldable pub sort_items : Sorter → List Item → Text → Bool → List Item
unfolding arrange order_kind
sort_items s items order rev =
    let sorted = arrange s (order_kind order) items in if rev then reverse sorted else sorted
