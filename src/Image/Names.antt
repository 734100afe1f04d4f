-- ===== src/Image/Names.antt =====
-- What `getImageNameTagAndDigest` makes of a name.
use luna_for_mac.Base.{
  String, true, false, ◌≡◌, refl, List, [], ◌∷◌, ◌==◌, ◌<>◌, contains_text, split, Lacks,
  split-append, Bool-cases, inl, inr, split-Lacks, filled, ◌⊎◌,
}
use luna_for_mac.Image.{tag_of, get_image_name_tag_and_digest}

append-filled : (s t : String) → (t == "") ≡ false → ((s <> t) == "") ≡ false
append-filled String.[] t h = h
append-filled (String.◌∷◌ c s) t h = filled c (s <> t)

tag_of-filled :
    (image : String) (parts : List String)
    → split b':' image ≡ parts
    → (tag_of image parts == "") ≡ false
unfolding split
tag_of-filled image [] e = refl
tag_of-filled image (p ∷ []) e = append-filled p ":latest" refl
tag_of-filled String.[] (p ∷ q ∷ ps) e = cc
tag_of-filled (String.◌∷◌ c s) (p ∷ q ∷ ps) e = filled c s

contains_text-filled :
    (image : String) → contains_text image "@sha256" ≡ true → (image == "") ≡ false
contains_text-filled String.[] h = cc
contains_text-filled (String.◌∷◌ c s) h = filled c s

-- A name stands for a tag that is not empty or for a digest that is not empty, and never for both.
pub tag_or_digest :
    (hash : String → String) (image : String)
    → let (key, tag, digest) = get_image_name_tag_and_digest hash image in
      (((tag == "") ≡ false) × (digest ≡ "") ⊎ (tag ≡ "") × ((digest == "") ≡ false))
unfolding get_image_name_tag_and_digest
tag_or_digest hash image = elim (Bool-cases (contains_text image "@sha256")) [
  | inl e ↦ rw e (inr (refl, contains_text-filled image e))
  | inr e ↦ rw e (inl (tag_of-filled image (split b':' image) refl, refl))
]

-- What stands before the first colon of a name without a digest decides its key.
pub key_before_colon :
    (hash : String → String) (host rest : String)
    → Lacks b':' host
    → contains_text (host <> (":" <> rest)) "@sha256" ≡ false
    → (get_image_name_tag_and_digest hash (host <> (":" <> rest))).0 ≡ hash host
unfolding get_image_name_tag_and_digest
key_before_colon hash host rest l h = rw (h, split-append b':' ":" host rest l refl) refl

-- The key of a name without a colon is made of the whole name, as is that of the name with a tag.
pub key_no_colon :
    (hash : String → String) (name : String)
    → Lacks b':' name
    → contains_text name "@sha256" ≡ false
    → (get_image_name_tag_and_digest hash name).0 ≡ hash name
unfolding get_image_name_tag_and_digest
key_no_colon hash name l h = rw (h, split-Lacks b':' name l) refl
