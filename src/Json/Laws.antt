-- ===== src/Json/Laws.antt =====
-- What is stored is read back: slices, maps and numbers.
use mathlib.Core.Option.{some-injective}
use luna_for_mac.Base.{
  String, Bool, true, ◌≡◌, refl, Option, none, some, List, [], ◌∷◌, if◌then◌else◌, arith, ◌>>=◌,
  subst, Option-cases, Bool-cases, inl, inr,
}
use luna_for_mac.Base.Int.{ℤ, pos}
use luna_for_mac.Json.{
  Json, Fields, null, num, obj, end, field, has_key, find_field, read_field, to_text, to_map,
  TextMap, DistinctKeys, of_texts, of_map, to_texts_items, to_map_fields, to_int,
}

pub to_texts-of_texts : (ss : List String) → to_texts_items (of_texts ss) ≡ some ss
unfolding of_texts to_texts_items
to_texts-of_texts [] = refl
to_texts-of_texts (s ∷ ss) = rw (to_texts-of_texts ss) refl

pub to_map-of_map : (m : TextMap) → DistinctKeys m → to_map_fields (of_map m) ≡ some m
unfolding of_map to_map_fields
to_map-of_map [] d = refl
to_map-of_map ((k, v) ∷ m) d = rw (to_map-of_map m d.1, d.0) refl

pub to_int-num : (fits : ℤ → Bool) (z : ℤ) → fits z ≡ true → to_int fits (num z) ≡ some z
to_int-num fits z h = rw h refl

pub >>=-eq-some {ℓ κ} :
    {A : Type ℓ} {B : Type κ} (o : Option A) (f : A → Option B) {b : B}
    → (o >>= f) ≡ some b
    → (a : A) × (o ≡ some a) × (f a ≡ some b)
>>=-eq-some none f h = cc
>>=-eq-some (some a) f h = (a, refl, h)

to_int-fits :
    (fits : ℤ → Bool) (j : Json) (z : ℤ)
    → fits (pos 0) ≡ true
    → to_int fits j ≡ some z
    → fits z ≡ true
to_int-fits fits null z zero_fits h = ground arith
to_int-fits fits (num y) z zero_fits h = ground arith
to_int-fits fits _ z zero_fits h = cc

-- A number that was read fits its type.
pub read_int-fits :
    (fits : ℤ → Bool) (k : String) (fs : Fields) (z : ℤ)
    → fits (pos 0) ≡ true
    → read_field (to_int fits) k fs ≡ some z
    → fits z ≡ true
read_int-fits fits k fs z zero_fits h = elim (Option-cases (find_field k fs)) [
  | inl e ↦ to_int-fits fits null z zero_fits (rw (e, read_field) at h)
  | inr (j, e) ↦ to_int-fits fits j z zero_fits (rw (e, read_field) at h)
]

if-DistinctKeys :
    (k v : String) (m : TextMap)
    → DistinctKeys m
    → DistinctKeys (if has_key k m then m else (k, v) ∷ m)
if-DistinctKeys k v m d = elim (Bool-cases (has_key k m)) [ inl e ↦ rw e d | inr e ↦ rw e (e, d) ]

to_map_fields-DistinctKeys :
    (fs : Fields) (m : TextMap) → to_map_fields fs ≡ some m → DistinctKeys m
unfolding to_map_fields
to_map_fields-DistinctKeys end m h = subst DistinctKeys (some-injective _ _ h) tt
to_map_fields-DistinctKeys (field k j fs) m h =
    let (v, _, e) = >>=-eq-some (to_text j) _ h in
    let (rest, p, f) = >>=-eq-some (to_map_fields fs) _ e in
    subst DistinctKeys (some-injective _ _ f)
      (if-DistinctKeys k v rest (to_map_fields-DistinctKeys fs rest p))

to_map-DistinctKeys : (j : Json) (m : TextMap) → to_map j ≡ some m → DistinctKeys m
to_map-DistinctKeys null m h = subst DistinctKeys (some-injective _ _ h) tt
to_map-DistinctKeys (obj fs) m h = to_map_fields-DistinctKeys fs m h
to_map-DistinctKeys _ m h = cc

-- A map that was read has no key twice.
pub read_map-DistinctKeys :
    (k : String) (fs : Fields) (m : TextMap) → read_field to_map k fs ≡ some m → DistinctKeys m
read_map-DistinctKeys k fs m h = elim (Option-cases (find_field k fs)) [
  | inl e ↦ to_map-DistinctKeys null m (rw (e, read_field) at h)
  | inr (j, e) ↦ to_map-DistinctKeys j m (rw (e, read_field) at h)
]
