-- ===== src/Image/Pull.antt =====
-- PullImage against the store: what a later reader of any key finds.
use luna_for_mac.Base.{
  String, Bool, true, false, ◌≡◌, refl, ap, ◌∙◌, Option, none, some, List, [], ◌==◌, ◌||◌,
  if◌then◌else◌, arith, eq_refl, contains, Bool-cases, Option-cases, inl, inr,
}
use luna_for_mac.Base.Result.{ok}
use luna_for_mac.Disk.{Diskv, IsLawful}
use luna_for_mac.Image.{Image, get_image_name_tag_and_digest, add_to_slice_without_duplicate}
use luna_for_mac.Image.Slices.{drop_blank-drop_blank, drop_blank-add, add-add, contains-add}
use luna_for_mac.Image.Stored.{
  of_image, to_image, to_image-of_image, drop_blank, drop_blanks, get_image, put_image,
}
use luna_for_mac.Image.Handlers.{
  Auth, known, CriImage, pulled, image_status, save_pulled, pull_image,
}

abbrev pub IsClean : Option Image → Type 0
IsClean none = Unit
IsClean (some i) = (drop_blank i.tags ≡ i.tags) × (drop_blank i.digests ≡ i.digests)

pub pulled-drop_blanks :
    (name tag digest : String) (auth : Option Auth) (o : Option Image)
    → IsClean o
    → drop_blanks (pulled name tag digest auth o) ≡ pulled name tag digest auth o
unfolding pulled
pulled-drop_blanks name tag digest auth (some i) h =
    ground (arith, drop_blank-add tag i.tags, drop_blank-add digest i.digests)
pulled-drop_blanks name tag digest none none h = ground (
  arith,
  drop_blank-add tag [] (unfold drop_blank in refl),
  drop_blank-add digest [] (unfold drop_blank in refl),
)
pulled-drop_blanks name tag digest (some a) none h = ground (
  arith,
  drop_blank-add tag [] (unfold drop_blank in refl),
  drop_blank-add digest [] (unfold drop_blank in refl),
)

pulled-pulled :
    (name tag digest : String) (auth auth' : Option Auth) (o : Option Image)
    → pulled name tag digest auth' (some (pulled name tag digest auth o))
      ≡ pulled name tag digest auth o
unfolding pulled
pulled-pulled name tag digest auth auth' (some i) =
    ground (arith, add-add tag i.tags, add-add digest i.digests)
pulled-pulled name tag digest none auth' none = ground (arith, add-add tag [], add-add digest [])
pulled-pulled name tag digest (some a) auth' none =
    ground (arith, add-add tag [], add-add digest [])

added :
    (item : String) (slice : List String)
    → (contains (add_to_slice_without_duplicate item slice) item || item == "") ≡ true
added item slice = ground (arith, contains-add item item slice, eq_refl item)

pulled-contains :
    (name tag digest : String) (auth : Option Auth) (o : Option Image)
    → ((contains (pulled name tag digest auth o).tags tag || tag == "") ≡ true)
      × ((contains (pulled name tag digest auth o).digests digest || digest == "") ≡ true)
unfolding pulled
pulled-contains name tag digest auth (some i) = (added tag i.tags, added digest i.digests)
pulled-contains name tag digest none none = (added tag [], added digest [])
pulled-contains name tag digest (some a) none = (added tag [], added digest [])

if_same {ℓ} :
    {A : Type ℓ} (b : Bool) (x y : A)
    → (if b then x else (if b then x else y)) ≡ (if b then x else y)
if_same true x y = refl
if_same false x y = refl

module _ (D : Diskv) (hash : String → String) (L : IsLawful D) where
  pub get_image-put_image :
      (s t : D.State) (key k : String) (i : Image)
      → put_image D s key i ≡ some t
      → get_image D t k ≡ (if key == k then some (drop_blanks i) else get_image D s k)
  unfolding get_image put_image
  get_image-put_image s t key k i h =
      rw (L.read-write s t key k (of_image i) h) (elim (Bool-cases (key == k)) [
        | inl e ↦ rw (e, to_image-of_image i) refl
        | inr e ↦ rw e refl
      ])

  pub get_image-IsClean : (s : D.State) (k : String) → IsClean (get_image D s k)
  unfolding get_image
  get_image-IsClean s k = elim (Option-cases (D.read s k)) [
    | inl e ↦ rw e tt
    | inr (j, e) ↦ rw e (elim (Option-cases (to_image j)) [
      | inl f ↦ rw f tt
      | inr (i, f) ↦ rw f (drop_blank-drop_blank i.tags, drop_blank-drop_blank i.digests)
    ])
  ]

  save_pulled-eq :
      (s t : D.State) (key key' : String) (i : Image)
      → save_pulled D hash s key i ≡ (ok key', t)
      → (key' ≡ key) × (put_image D s key i ≡ some t)
  unfolding save_pulled
  save_pulled-eq s t key key' i h = elim (Option-cases (put_image D s key i)) [
    | inl e ↦ absurd (ground arith)
    | inr (u, e) ↦ ground arith
  ]

  -- After a pull that succeeded, the image under the key of the name is the one that was there,
  -- with the name's tag and digest added, or a new one; no other key is touched, and the key is the
  -- answer. The disk is lawful.
  pub get_image-pull_image :
      (s t : D.State) (name key : String) (auth : Option Auth)
      → pull_image D hash s (some name) auth ≡ (ok key, t)
      → let (own, tag, digest) = get_image_name_tag_and_digest hash name in
        (key ≡ own)
        × ((k : String)
            → get_image D t k ≡ (
                if own == k
                then some (pulled name tag digest auth (get_image D s own))
                else get_image D s k))
  unfolding pull_image
  get_image-pull_image s t name key auth h =
      let (own, tag, digest) = get_image_name_tag_and_digest hash name in
      let i = pulled name tag digest auth (get_image D s own) in
      let (e, saved) = save_pulled-eq s t own key i h in
      (
        e,
        λ k.
            get_image-put_image s t own k i saved
            ∙ ap (λ (j : Image). if own == k then some j else get_image D s k)
                (pulled-drop_blanks name tag digest auth (get_image D s own)
                  (get_image-IsClean s own)),
      )

  pub image_status-eq :
      (t : D.State) (name : String) (i : Image)
      → get_image D t (get_image_name_tag_and_digest hash name).0 ≡ some i
      → image_status D hash t (some name) ≡ some (known name i)
  unfolding image_status
  image_status-eq t name i h = rw h refl

  -- Pulling a name a second time, when both pulls succeed, leaves every key with what the first
  -- pull left there, whatever the authentication. The disk is lawful.
  pub pull_image_twice :
      (s t u : D.State) (name key key' : String) (auth auth' : Option Auth)
      → pull_image D hash s (some name) auth ≡ (ok key, t)
      → pull_image D hash t (some name) auth' ≡ (ok key', u)
      → (k : String) → get_image D u k ≡ get_image D t k
  pull_image_twice s t u name key key' auth auth' h h' k =
      let (own, tag, digest) = get_image_name_tag_and_digest hash name in
      let first = pulled name tag digest auth (get_image D s own) in
      let t_at = (get_image-pull_image s t name key auth h).1 in
      let u_at = (get_image-pull_image t u name key' auth' h').1 in
      let t_own : get_image D t own ≡ some first = t_at own ∙ rw (eq_refl own) refl in
      rw (u_at k, t_at k, t_own, pulled-pulled name tag digest auth auth' (get_image D s own))
        (if_same (own == k) (some first) (get_image D s k))

  -- After a pull that succeeded, the status of the name is known: it gives the name, and among its
  -- tags and digests the tag and the digest that the name stands for, where these are not empty.
  -- The disk is lawful.
  pub image_status-pull_image :
      (s t : D.State) (name key : String) (auth : Option Auth)
      → pull_image D hash s (some name) auth ≡ (ok key, t)
      → let (own, tag, digest) = get_image_name_tag_and_digest hash name in
        (i : CriImage) × (image_status D hash t (some name) ≡ some i)
        × (i.id ≡ name)
        × ((contains i.repo_tags tag || tag == "") ≡ true)
        × ((contains i.repo_digests digest || digest == "") ≡ true)
  image_status-pull_image s t name key auth h =
      let (own, tag, digest) = get_image_name_tag_and_digest hash name in
      let i = pulled name tag digest auth (get_image D s own) in
      let t_own : get_image D t own ≡ some i =
        (get_image-pull_image s t name key auth h).1 own ∙ rw (eq_refl own) refl in
      let (has_tag, has_digest) = pulled-contains name tag digest auth (get_image D s own) in
      (known name i, image_status-eq t name i t_own, refl, has_tag, has_digest)
