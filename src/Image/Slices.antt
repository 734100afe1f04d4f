-- ===== src/Image/Slices.antt =====
-- The two slice helpers keep a set of texts: what is added is there, what is removed is not, the
-- others stay, and no text comes to stand twice.
use luna_for_mac.Base.{
  String, false, ◌≡◌, refl, List, [], ◌∷◌, ◌++◌, ◌==◌, ◌||◌, ◌&&◌, not, arith, eq_iff, eq_refl,
  contains, Distinct, contains-append,
}
use luna_for_mac.Image.{add_to_slice_without_duplicate, remove_from_slice}
use luna_for_mac.Image.Stored.{drop_blank}

Distinct-snoc :
    (item : String) (slice : List String)
    → Distinct slice
    → contains slice item ≡ false
    → Distinct (slice ++ item ∷ [])
Distinct-snoc item [] d h = (refl, tt)
Distinct-snoc item (i ∷ slice) d h = (
  ground (arith, contains-append slice (item ∷ []) i, eq_iff i item, eq_iff item i),
  Distinct-snoc item slice d.1 (ground arith),
)

pub add-Distinct :
    (item : String) (slice : List String)
    → Distinct slice
    → Distinct (add_to_slice_without_duplicate item slice)
unfolding add_to_slice_without_duplicate
add-Distinct item slice d = ground (arith, Distinct-snoc item slice d)

pub contains-add :
    (item a : String) (slice : List String)
    → contains (add_to_slice_without_duplicate item slice) a
      ≡ (contains slice a || (not (item == "") && (item == a)))
unfolding add_to_slice_without_duplicate
contains-add item a slice = ground (arith, contains-append slice (item ∷ []) a, eq_iff item a)

pub contains-remove :
    (item a : String) (slice : List String)
    → contains (remove_from_slice item slice) a ≡ (contains slice a && not (item == a))
unfolding remove_from_slice
contains-remove item a [] = refl
contains-remove item a (i ∷ slice) =
    ground (arith, contains-remove item a slice, eq_iff i item, eq_iff i a, eq_iff item a)

pub remove-Distinct :
    (item : String) (slice : List String) → Distinct slice → Distinct (remove_from_slice item slice)
unfolding remove_from_slice
remove-Distinct item [] d = tt
remove-Distinct item (i ∷ slice) d =
    ground (arith, contains-remove item i slice, remove-Distinct item slice d.1)

-- A second addition changes nothing.
pub add-add :
    (item : String) (slice : List String)
    → add_to_slice_without_duplicate item (add_to_slice_without_duplicate item slice)
      ≡ add_to_slice_without_duplicate item slice
unfolding add_to_slice_without_duplicate
add-add item slice = ground (arith, contains-append slice (item ∷ []) item, eq_refl item)

-- What is read from the store holds no blank slice, and an addition or a removal makes none.
pub drop_blank-drop_blank : (slice : List String) → drop_blank (drop_blank slice) ≡ drop_blank slice
unfolding drop_blank
drop_blank-drop_blank [] = refl
drop_blank-drop_blank (s ∷ []) = ground arith
drop_blank-drop_blank (s ∷ t ∷ ss) = refl

pub drop_blank-add :
    (item : String) (slice : List String)
    → drop_blank slice ≡ slice
    → drop_blank (add_to_slice_without_duplicate item slice)
      ≡ add_to_slice_without_duplicate item slice
unfolding drop_blank add_to_slice_without_duplicate
drop_blank-add item [] h = ground arith
drop_blank-add item (s ∷ []) h = ground arith
drop_blank-add item (s ∷ t ∷ ss) h = ground arith
