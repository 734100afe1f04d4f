-- ===== src/Image/Remove.antt =====
-- RemoveImage against the store, and after PullImage.
use luna_for_mac.Base.{
  String, false, ◌≡◌, refl, sym, ◌∙◌, ◌⊎◌, Option, none, some, ◌==◌, if◌then◌else◌, arith, eq_iff,
  eq_refl, Bool-cases, Option-cases, inl, inr,
}
use luna_for_mac.Base.Result.{Result, ok}
use luna_for_mac.Disk.{Diskv, IsLawful, IsReliable}
use luna_for_mac.Image.{
  Image, get_image_name_tag_and_digest, add_to_slice_without_duplicate, remove_from_slice,
}
use luna_for_mac.Image.Names.{tag_or_digest}
use luna_for_mac.Image.Stored.{of_image, drop_blanks, get_image, delete_image}
use luna_for_mac.Image.Handlers.{
  Error, Auth, pulled, is_last, pull_image, remove_found, remove_image,
}
use luna_for_mac.Image.Pull.{get_image-put_image, get_image-pull_image}

-- What stays of an image when a tag and a digest are taken from it.
abbrev pub remaining : String → String → Option Image → Option Image
remaining tag digest none = none
remaining tag digest (some i) =
    if is_last tag digest i
    then none
    else some (
        drop_blanks (record i {
          tags = remove_from_slice tag i.tags;
          digests = remove_from_slice digest i.digests;
        }))

-- A new image has one tag or one digest.
pulled-remaining :
    (name tag digest : String) (auth : Option Auth)
    → ((tag == "") ≡ false) × (digest ≡ "") ⊎ (tag ≡ "") × ((digest == "") ≡ false)
    → remaining tag digest (some (pulled name tag digest auth none)) ≡ none
unfolding pulled add_to_slice_without_duplicate
pulled-remaining name tag digest none h = ground (arith, eq_refl tag, eq_refl digest)
pulled-remaining name tag digest (some a) h = ground (arith, eq_refl tag, eq_refl digest)

module _ (D : Diskv) (hash : String → String) (L : IsLawful D) (R : IsReliable D) where
  -- An image that is found can be read.
  get_image-read :
      (s : D.State) (k : String) (i : Image)
      → get_image D s k ≡ some i
      → (j : _) × (D.read s k ≡ some j)
  unfolding get_image
  get_image-read s k i h = elim (Option-cases (D.read s k)) [
    | inl e ↦ absurd (ground arith)
    | inr (j, e) ↦ (j, e)
  ]

  get_image-delete_image :
      (s : D.State) (own k : String) (i : Image)
      → get_image D s own ≡ some i
      → get_image D (delete_image D s own) k ≡ (if own == k then none else get_image D s k)
  unfolding delete_image get_image
  get_image-delete_image s own k i h =
      let (j, there) = get_image-read s own i h in
      let (t, e) = R.erase_ok s own j there in
      rw (e, L.read-erase s t own k e)
        (elim (Bool-cases (own == k)) [ inl b ↦ rw b refl | inr b ↦ rw b refl ])

  abbrev Removes : D.State → String → Option Image → Result Error (Unit {0}) × D.State → Type 0
  Removes s own left (answer, t) =
      (answer ≡ ok tt)
      × ((k : String) → get_image D t k ≡ (if own == k then left else get_image D s k))

  if_own :
      (s : D.State) (own k : String) (o : Option Image)
      → get_image D s own ≡ o
      → get_image D s k ≡ (if own == k then o else get_image D s k)
  if_own s own k o h = elim (Bool-cases (own == k)) [
    | inl b ↦ rw (b, ← (eq_iff own k).0 b) h
    | inr b ↦ rw b refl
  ]

  remove_found-get :
      (s : D.State) (own tag digest : String) (o : Option Image)
      → get_image D s own ≡ o
      → Removes s own (remaining tag digest o) (remove_found D hash s own tag digest o)
  unfolding remove_found
  remove_found-get s own tag digest none h = (refl, λ k. if_own s own k none h)
  remove_found-get s own tag digest (some i) h = elim (Bool-cases (is_last tag digest i)) [
    | inl b ↦ rw b (refl, λ k. get_image-delete_image s own k i h)
    | inr b ↦
        let left : Image = record i {
          tags = remove_from_slice tag i.tags;
          digests = remove_from_slice digest i.digests;
        } in
        let (t, e) = R.write_ok s own (of_image left) in
        rw (b, e) (refl, λ k. get_image-put_image D hash L s t own k left e)
  ]

  restored :
      (s : D.State) (own k : String) (o : Option Image)
      → get_image D s own ≡ none
      → (if own == k then none else (if own == k then o else get_image D s k)) ≡ get_image D s k
  restored s own k o h = elim (Bool-cases (own == k)) [
    | inl b ↦ rw (b, ← (eq_iff own k).0 b) (sym h)
    | inr b ↦ rw b refl
  ]

  -- RemoveImage takes the tag and the digest of the name from the image under its key, deletes the
  -- image with its last tag or digest, and touches no other key. It always succeeds. The disk is
  -- lawful and reliable.
  pub get_image-remove_image :
      (s : D.State) (name : String)
      → let (own, tag, digest) = get_image_name_tag_and_digest hash name in
        let (answer, t) = remove_image D hash s (some name) in
        (answer ≡ ok tt)
        × ((k : String)
            → get_image D t k
              ≡ (if own == k then remaining tag digest (get_image D s own) else get_image D s k))
  unfolding remove_image
  get_image-remove_image s name =
      let (own, tag, digest) = get_image_name_tag_and_digest hash name in
      remove_found-get s own tag digest (get_image D s own) refl

  -- After a name that had no image was pulled, removing it succeeds and brings every key back to
  -- what it held. The disk is lawful and reliable.
  pub remove_image-pull_image :
      (s t : D.State) (name key : String) (auth : Option Auth)
      → get_image D s (get_image_name_tag_and_digest hash name).0 ≡ none
      → pull_image D hash s (some name) auth ≡ (ok key, t)
      → let (answer, u) = remove_image D hash t (some name) in
        (answer ≡ ok tt) × ((k : String) → get_image D u k ≡ get_image D s k)
  remove_image-pull_image s t name key auth new h =
      let (own, tag, digest) = get_image_name_tag_and_digest hash name in
      let t_at = (get_image-pull_image D hash L s t name key auth h).1 in
      let (fine, u_at) = get_image-remove_image t name in
      let t_own : get_image D t own ≡ some (pulled name tag digest auth none) =
        t_at own ∙ rw (eq_refl own, new) refl in
      (
        fine,
        λ k.
            rw
              (
                u_at k,
                t_own,
                pulled-remaining name tag digest auth (tag_or_digest hash name),
                t_at k,
                new,
              )
              (restored s own k (some (pulled name tag digest auth none)) new),
      )
