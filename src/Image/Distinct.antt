-- ===== src/Image/Distinct.antt =====
-- No image of the store comes to have a tag or a digest twice.
use luna_for_mac.Base.{
  String, Bool, true, false, ◌≡◌, Option, none, some, List, [], ◌∷◌, ◌==◌, if◌then◌else◌, Distinct,
  Bool-cases, inl, inr,
}
use luna_for_mac.Base.Result.{ok}
use luna_for_mac.Disk.{Diskv, IsLawful, IsReliable}
use luna_for_mac.Image.{Image, get_image_name_tag_and_digest}
use luna_for_mac.Image.Slices.{add-Distinct, remove-Distinct}
use luna_for_mac.Image.Stored.{drop_blank, get_image}
use luna_for_mac.Image.Handlers.{Auth, pulled, pull_image, remove_image, is_last}
use luna_for_mac.Image.Pull.{get_image-pull_image}
use luna_for_mac.Image.Remove.{remaining, get_image-remove_image}

abbrev pub HasDistinct : Option Image → Type 0
HasDistinct none = Unit
HasDistinct (some i) = Distinct i.tags × Distinct i.digests

pulled-HasDistinct :
    (name tag digest : String) (auth : Option Auth) (o : Option Image)
    → HasDistinct o
    → HasDistinct (some (pulled name tag digest auth o))
unfolding pulled
pulled-HasDistinct name tag digest auth (some i) h =
    (add-Distinct tag i.tags h.0, add-Distinct digest i.digests h.1)
pulled-HasDistinct name tag digest none none h = (add-Distinct tag [] tt, add-Distinct digest [] tt)
pulled-HasDistinct name tag digest (some a) none h =
    (add-Distinct tag [] tt, add-Distinct digest [] tt)

drop_blank-Distinct : (slice : List String) → Distinct slice → Distinct (drop_blank slice)
unfolding drop_blank
drop_blank-Distinct [] d = d
drop_blank-Distinct (s ∷ []) d = elim (Bool-cases (s == "")) [ inl e ↦ rw e tt | inr e ↦ rw e d ]
drop_blank-Distinct (s ∷ t ∷ ss) d = d

remaining-HasDistinct :
    (tag digest : String) (o : Option Image) → HasDistinct o → HasDistinct (remaining tag digest o)
remaining-HasDistinct tag digest none h = tt
remaining-HasDistinct tag digest (some i) h = elim (Bool-cases (is_last tag digest i)) [
  | inl e ↦ rw e tt
  | inr e ↦ rw e (
    drop_blank-Distinct _ (remove-Distinct tag i.tags h.0),
    drop_blank-Distinct _ (remove-Distinct digest i.digests h.1),
  )
]

if-HasDistinct :
    (b : Bool) (x y : Option Image)
    → HasDistinct x
    → HasDistinct y
    → HasDistinct (if b then x else y)
if-HasDistinct true x y hx hy = hx
if-HasDistinct false x y hx hy = hy

module _ (D : Diskv) (hash : String → String) (L : IsLawful D) where
  -- Every image that can be read has distinct tags and distinct digests.
  abbrev pub IsDistinct : D.State → Type 0
  IsDistinct s = (k : String) → HasDistinct (get_image D s k)

  -- A pull that succeeds keeps the tags and the digests of every image distinct, when they were.
  -- The disk is lawful.
  pub pull_image-IsDistinct :
      (s t : D.State) (name key : String) (auth : Option Auth)
      → IsDistinct s
      → pull_image D hash s (some name) auth ≡ (ok key, t)
      → IsDistinct t
  pull_image-IsDistinct s t name key auth d h k =
      let (own, tag, digest) = get_image_name_tag_and_digest hash name in
      rw ((get_image-pull_image D hash L s t name key auth h).1 k)
        (if-HasDistinct (own == k) _ _ (pulled-HasDistinct name tag digest auth _ (d own)) (d k))

  -- RemoveImage keeps the tags and the digests of every image distinct, when they were. The disk is
  -- lawful and reliable.
  pub remove_image-IsDistinct :
      IsReliable D
      → (s : D.State) (name : String) → IsDistinct s
      → IsDistinct (remove_image D hash s (some name)).1
  remove_image-IsDistinct R s name d k =
      let (own, tag, digest) = get_image_name_tag_and_digest hash name in
      rw ((get_image-remove_image D hash L R s name).1 k)
        (if-HasDistinct (own == k) _ _ (remaining-HasDistinct tag digest _ (d own)) (d k))
