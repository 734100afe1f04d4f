-- ===== src/Disk/Memory.antt =====
-- A data store in memory, which has the documented behaviour.
use luna_for_mac.Base.{
  All, Lacks, contains, true, Bool-cases, inl, inr, ap, eq_refl, String, ◌≡◌, refl, ◌==◌, Option,
  none, some, List, [], ◌∷◌, map, if◌then◌else◌, arith, eq_iff,
}
use luna_for_mac.Json.{Json}
use luna_for_mac.Disk.{Diskv, IsLawful, IsReliable, IsListing, base_name, base_name-plain}

abbrev pub Files : Type 0
Files = List (String × Json)

unfoldable pub find : Files → String → Option Json
find [] k = none
find ((j, v) ∷ m) k = if j == k then some v else find m k

unfoldable pub remove : Files → String → Files
remove [] k = []
remove ((j, v) ∷ m) k = let rest = remove m k in if j == k then rest else (j, v) ∷ rest

unfoldable pub erase_if : Files → String → Option Json → Option Files
erase_if m k none = none
erase_if m k (some v) = some (remove m k)

abbrev pub memory : Diskv
memory = record {
  State = Files;
  read = find;
  write = λ m k v. some ((k, v) ∷ remove m k);
  erase = λ m k. erase_if m k (find m k);
  keys = map (λ e. base_name e.0);
}

find-remove : (m : Files) (k j : String) → find (remove m k) j ≡ (if k == j then none else find m j)
unfolding find remove
find-remove [] k j = ground arith
find-remove ((i, v) ∷ m) k j = ground (arith, find-remove m k j, eq_iff i k, eq_iff i j, eq_iff k j)

find-erase :
    (s t : Files) (k j : String) (o : Option Json)
    → erase_if s k o ≡ some t
    → find t j ≡ (if k == j then none else find s j)
unfolding erase_if
find-erase s t k j none h = cc
find-erase s t k j (some v) h = ground (arith, find-remove s k j)

find-write :
    (s t : Files) (k j : String) (v : Json)
    → some ((k, v) ∷ remove s k) ≡ some t
    → find t j ≡ (if k == j then some v else find s j)
unfolding find
find-write s t k j v h = ground (arith, find-remove s k j)

pub memory-IsLawful : IsLawful memory
memory-IsLawful = record {
  read-write = find-write;
  read-erase = λ s t k j. find-erase s t k j (find s k);
}

erase_if_found :
    (s : Files) (k : String) (v : Json) (o : Option Json)
    → o ≡ some v
    → (t : Files) × (erase_if s k o ≡ some t)
unfolding erase_if
erase_if_found s k v none e = cc
erase_if_found s k v (some w) e = (remove s k, refl)

pub memory-IsReliable : IsReliable memory
memory-IsReliable = record {
  write_ok = λ s k v. ((k, v) ∷ remove s k, refl);
  erase_ok = λ s k v h. erase_if_found s k v (find s k) h;
}

contains-keys :
    (m : Files) (k : String) (v : Json)
    → find m k ≡ some v
    → contains (map (λ (e : String × Json). base_name e.0) m) (base_name k) ≡ true
unfolding find
contains-keys [] k v h = cc
contains-keys ((j, w) ∷ m) k v h = elim (Bool-cases (j == k)) [
  | inl e ↦ rw (ap base_name ((eq_iff j k).0 e), eq_refl (base_name k)) refl
  | inr e ↦ ground (arith, contains-keys m k v)
]

keys_plain : (m : Files) → All (Lacks b'/') (map (λ (e : String × Json). base_name e.0) m)
keys_plain [] = tt
keys_plain ((j, w) ∷ m) = (base_name-plain j, keys_plain m)

pub memory-IsListing : IsListing memory
memory-IsListing = record { lists = λ s k j h. contains-keys s k j h; plain = keys_plain }
