-- ===== src/Plan/Order.antt =====
-- What `sortItems` of internal/plan/build.go promises.
use mathlib.Core.List.{Perm, reverse, reverse_perm, reverse-append}
use mathlib.Core.Path.{subst}
use mathlib.Core.List.Perm
use tgup.Prelude.{
  ◌≡◌, refl, sym, ◌≢◌, ◌++◌, All-append, Bool, true, false, List, [], ◌∷◌, All, if◌then◌else◌,
  arith,
}
use tgup.Prelude.Text.{
  Text, text_eq_iff, text_eq_refl, text_ltb_irrefl, text_ltb_trans, text_ltb_negtrans,
  text_ltb_total,
}
use tgup.Scan.Model.{Item}
use tgup.Plan.Sort.{
  Less, IsStrictWeak, SortedBy, Sorter, less_mtime, less_size, less_name, OrderKind, mtime, size,
  random, name, order_kind, arrange, sort_items,
}

less_mtime-IsStrictWeak : IsStrictWeak less_mtime
unfolding less_mtime
less_mtime-IsStrictWeak = record {
  irrefl = λ a. ground (arith, text_ltb_irrefl a.path);
  trans = λ a b c h k. ground (arith, text_ltb_trans a.path b.path c.path);
  negtrans = λ a b c h k. ground (arith, text_ltb_negtrans a.path b.path c.path);
}

less_size-IsStrictWeak : IsStrictWeak less_size
unfolding less_size
less_size-IsStrictWeak = record {
  irrefl = λ a. ground (arith, text_ltb_irrefl a.path);
  trans = λ a b c h k. ground (arith, text_ltb_trans a.path b.path c.path);
  negtrans = λ a b c h k. ground (arith, text_ltb_negtrans a.path b.path c.path);
}

less_name-IsStrictWeak : IsStrictWeak less_name
unfolding less_name
less_name-IsStrictWeak = record {
  irrefl = λ a. ground (arith, text_eq_refl a.path);
  trans = λ a b c h k. ground (
    arith,
    text_ltb_trans a.path b.path c.path,
    text_eq_iff a.path b.path,
    text_eq_iff b.path c.path,
    text_eq_iff a.path c.path,
    text_ltb_irrefl a.path,
  );
  negtrans = λ a b c h k. ground (
    arith,
    text_ltb_negtrans a.path b.path c.path,
    text_eq_iff a.path b.path,
    text_eq_iff b.path c.path,
    text_eq_iff a.path c.path,
    text_ltb_total a.path b.path,
    text_ltb_total b.path c.path,
  );
}

-- The comparison that an order sorts by; `random` has none.
abbrev pub less_of : OrderKind → Less
less_of mtime = less_mtime
less_of size = less_size
less_of random = λ a b. false
less_of name = less_name

less_of-IsStrictWeak : (k : OrderKind) → IsStrictWeak (less_of k)
less_of-IsStrictWeak mtime = less_mtime-IsStrictWeak
less_of-IsStrictWeak size = less_size-IsStrictWeak
less_of-IsStrictWeak random = record {
  irrefl = λ a. refl;
  trans = λ a b c h k. cc;
  negtrans = λ a b c h k. refl;
}
less_of-IsStrictWeak name = less_name-IsStrictWeak

arrange-perm : (s : Sorter) (k : OrderKind) (items : List Item) → Perm (arrange s k items) items
unfolding arrange
arrange-perm s mtime items = s.sort-perm less_mtime items
arrange-perm s size items = s.sort-perm less_size items
arrange-perm s random items = s.shuffle-perm items
arrange-perm s name items = s.sort-perm less_name items

-- Sorting, reversing and shuffling rearrange the items, whatever the order asked for.
pub sort_items-perm :
    (s : Sorter) (items : List Item) (order : Text) (rev : Bool)
    → Perm (sort_items s items order rev) items
unfolding sort_items
sort_items-perm s items order false = arrange-perm s (order_kind order) items
sort_items-perm s items order true =
    Perm.trans (reverse_perm _) (arrange-perm s (order_kind order) items)

abbrev pub flip : Less → Less
flip less a b = less b a

SortedBy-snoc :
    (less : Less) (x : Item) (xs : List Item)
    → SortedBy less xs
    → All (λ y. less x y ≡ false) xs
    → SortedBy less (xs ++ x ∷ [])
SortedBy-snoc less x [] h k = (tt, tt)
SortedBy-snoc less x (y ∷ ys) h k =
    (All-append (λ z. less z y ≡ false) ys (x ∷ []) h.0 (k.0, tt), SortedBy-snoc less x ys h.1 k.1)

All-reverse {ℓ} : (P : Item → Type ℓ) (xs : List Item) → All P xs → All P (reverse xs)
All-reverse P [] h = tt
All-reverse P (x ∷ xs) h =
    subst (All P) (sym (reverse-append (x ∷ []) xs))
      (All-append P (reverse xs) (x ∷ []) (All-reverse P xs h.1) (h.0, tt))

SortedBy-reverse :
    (less : Less) (xs : List Item) → SortedBy less xs → SortedBy (flip less) (reverse xs)
SortedBy-reverse less [] h = tt
SortedBy-reverse less (x ∷ xs) h = subst (SortedBy (flip less)) (sym (reverse-append (x ∷ []) xs)) (
    SortedBy-snoc (flip less) x (reverse xs) (SortedBy-reverse less xs h.1)
      (All-reverse (λ y. less y x ≡ false) xs h.0))

arrange-SortedBy :
    (s : Sorter) (k : OrderKind) (items : List Item)
    → k ≢ random
    → SortedBy (less_of k) (arrange s k items)
unfolding arrange
arrange-SortedBy s random items h = absurd (h refl)
arrange-SortedBy s mtime items h = s.sort-SortedBy less_mtime (less_of-IsStrictWeak mtime) items
arrange-SortedBy s size items h = s.sort-SortedBy less_size (less_of-IsStrictWeak size) items
arrange-SortedBy s name items h = s.sort-SortedBy less_name (less_of-IsStrictWeak name) items

-- For every order but `random` the items stand in the order asked for, by modification time,
-- by size or by path, from the smallest or, with `reverse`, from the largest: no item stands
-- after one that the comparison puts behind it.
pub sort_items-SortedBy :
    (s : Sorter) (items : List Item) (order : Text) (rev : Bool)
    → order_kind order ≢ random
    → let less = less_of (order_kind order) in
      SortedBy (if rev then flip less else less) (sort_items s items order rev)
unfolding sort_items
sort_items-SortedBy s items order false h = arrange-SortedBy s (order_kind order) items h
sort_items-SortedBy s items order true h =
    SortedBy-reverse (less_of (order_kind order)) _ (arrange-SortedBy s (order_kind order) items h)
