-- ===== src/Runtime/Listing/Labels.antt =====
-- Counting the labels that match, as the filters by label do, decides whether all of the selector's
-- labels are there.
use luna_for_mac.Base.{
  ◌≤◌, String, Bool, true, false, ◌≡◌, refl, ◌&&◌, ◌||◌, List, [], ◌∷◌, ◌==◌, if◌then◌else◌, arith,
  ap, sym, ◌∙◌, Bool-cases, inl, inr, length, nat_eq, keep, keep-all, All, eq_iff,
}
use luna_for_mac.Json.{TextMap, has_key, DistinctKeys}
use luna_for_mac.Runtime.Listing.{label_matches, matches, filter_by_label}

-- Whether the map has the label.
abbrev pub has_label : TextMap → String × String → Bool
has_label [] label = false
has_label ((k, v) ∷ own) label = (k == label.0 && v == label.1) || has_label own label

abbrev pub has_labels : TextMap → TextMap → Bool
has_labels own [] = true
has_labels own (label ∷ labels) = has_label own label && has_labels own labels

no_key-matches :
    (label : String × String) (own : TextMap)
    → has_key label.0 own ≡ false
    → (label_matches label own ≡ 0) × (has_label own label ≡ false)
unfolding label_matches
no_key-matches label [] h = (refl, refl)
no_key-matches label ((k, v) ∷ own) h = ground (arith, no_key-matches label own (ground arith))

label_matches_lem :
    (label : String × String) (own : TextMap)
    → DistinctKeys own
    → label_matches label own ≡ (if has_label own label then 1 else 0)
unfolding label_matches
label_matches_lem label [] d = refl
label_matches_lem label ((k, v) ∷ own) d = elim (Bool-cases (k == label.0)) [
  | inl e ↦
      let (none_left, absent) =
        no_key-matches label own (ap (λ j. has_key j own) (sym ((eq_iff k label.0).0 e)) ∙ d.0) in
      ground arith
  | inr e ↦ ground (arith, label_matches_lem label own d.1)
]

matches_le : (labels own : TextMap) → DistinctKeys own → matches labels own ≤ length labels
unfolding matches
matches_le [] own d = omega arith
matches_le (label ∷ labels) own d =
    ground (arith, label_matches_lem label own d, matches_le labels own d)

-- For a map in which no key stands twice, as many labels match as the selector has exactly when the
-- map has all labels of the selector.
pub matches_lem :
    (labels own : TextMap)
    → DistinctKeys own
    → nat_eq (matches labels own) (length labels) ≡ has_labels own labels
unfolding matches
matches_lem [] own d = refl
matches_lem (label ∷ labels) own d =
    ground (arith, label_matches_lem label own d, matches_le labels own d, matches_lem labels own d)

pub keep_same {ℓ κ} :
    {A : Type ℓ} (P : A → Type κ) (p q : A → Bool) (xs : List A)
    → ((x : A) → P x → p x ≡ q x)
    → All P xs
    → keep p xs ≡ keep q xs
keep_same P p q [] same h = refl
keep_same P p q (x ∷ xs) same h = ground (arith, same x h.0, keep_same P p q xs same h.1)

pub filter_by_label_lem {ℓ} :
    {A : Type ℓ} (own : A → TextMap) (labels : TextMap) (cs : List A)
    → All (λ c. DistinctKeys (own c)) cs
    → filter_by_label own labels cs ≡ keep (λ c. has_labels (own c) labels) cs
unfolding filter_by_label
filter_by_label_lem own [] cs h = sym (keep-all cs)
filter_by_label_lem own (label ∷ labels) cs h =
    keep_same (λ c. DistinctKeys (own c)) _ _ cs (λ c d. matches_lem (label ∷ labels) (own c) d) h
