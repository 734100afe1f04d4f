-- ===== src/Image/Keys.antt =====
-- Names that share a key share an image.
use luna_for_mac.Base.{
  String, true, false, [], ◌∷◌, none, ap, ◌||◌, ◌≡◌, refl, subst, ◌∙◌, Option, some, eq_refl, ◌<>◌,
  contains_text, Lacks,
}
use luna_for_mac.Base.Result.{ok}
use luna_for_mac.Disk.{Diskv, IsLawful, IsReliable}
use luna_for_mac.Image.{Image, get_image_name_tag_and_digest}
use luna_for_mac.Image.Names.{key_before_colon}
use luna_for_mac.Image.Stored.{get_image}
use luna_for_mac.Image.Handlers.{
  Auth, known, image_status, pulled, pull_image, remove_image, is_only, is_last,
}
use luna_for_mac.Image.Remove.{remaining, get_image-remove_image}
use luna_for_mac.Image.Pull.{get_image-pull_image, image_status-eq}

remaining-only :
    (tag digest : String) (i : Image) → i.tags ≡ tag ∷ [] → remaining tag digest (some i) ≡ none
remaining-only tag digest i h =
    let only : is_last tag digest i ≡ true =
      ap (λ ts. is_only tag ts || is_only digest i.digests) h ∙ rw (eq_refl tag) refl in
    rw only refl

module _ (D : Diskv) (hash : String → String) (L : IsLawful D) where
  -- Once a name with a colon was pulled, ImageStatus reports every name as present that agrees with
  -- it up to the first colon, whatever follows: another tag, or, if what stands there is a registry
  -- with a port, another repository. The tags and digests that it gives are those of the stored
  -- image. Neither name has a digest. The disk is lawful.
  pub image_status_of_other_name :
      (s t : D.State) (host pulled_rest asked_rest key : String) (auth : Option Auth)
      → Lacks b':' host
      → contains_text (host <> (":" <> pulled_rest)) "@sha256" ≡ false
      → contains_text (host <> (":" <> asked_rest)) "@sha256" ≡ false
      → pull_image D hash s (some (host <> (":" <> pulled_rest))) auth ≡ (ok key, t)
      → (i : Image) × (get_image D t (hash host) ≡ some i)
        × (image_status D hash t (some (host <> (":" <> asked_rest)))
            ≡ some (known (host <> (":" <> asked_rest)) i))
  image_status_of_other_name s t host pulled_rest asked_rest key auth l p q h =
      let name = host <> (":" <> pulled_rest) in
      let (own, tag, digest) = get_image_name_tag_and_digest hash name in
      let i = pulled name tag digest auth (get_image D s own) in
      let own_key = key_before_colon hash host pulled_rest l p in
      let stored : get_image D t (hash host) ≡ some i =
        subst (λ (k : String). get_image D t k ≡ some i) own_key
          ((get_image-pull_image D hash L s t name key auth h).1 own ∙ rw (eq_refl own) refl) in
      (
        i,
        stored,
        image_status-eq D hash L t (host <> (":" <> asked_rest)) i
            (rw (key_before_colon hash host asked_rest l q) stored),
      )

  image_status-none :
      (t : D.State) (name : String)
      → get_image D t (get_image_name_tag_and_digest hash name).0 ≡ none
      → image_status D hash t (some name) ≡ none
  unfolding image_status
  image_status-none t name h = rw h refl

  -- An image has a single tag, and maybe digests. Once the name with that tag is removed, no name
  -- of the same key is known any more, also if the image was pulled by a digest. The disk is lawful
  -- and reliable.
  pub image_status-remove_image :
      IsReliable D
      → (s : D.State) (name other : String) (i : Image)
      → get_image D s (get_image_name_tag_and_digest hash name).0 ≡ some i
      → i.tags ≡ (get_image_name_tag_and_digest hash name).1 ∷ []
      → (get_image_name_tag_and_digest hash other).0 ≡ (get_image_name_tag_and_digest hash name).0
      → image_status D hash (remove_image D hash s (some name)).1 (some other) ≡ none
  image_status-remove_image R s name other i found only same =
      let (own, tag, digest) = get_image_name_tag_and_digest hash name in
      let t = (remove_image D hash s (some name)).1 in
      image_status-none t other (
        ap (get_image D t) same
        ∙ (get_image-remove_image D hash L R s name).1 own
        ∙ rw (eq_refl own, found) (remaining-only tag digest i only))
