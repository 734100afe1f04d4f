-- ===== src/Image/Catalog/Refines.antt =====
-- The image service does what the abstract view of it promises.
use luna_for_mac.Base.{
  String, Bool, true, false, ◌≡◌, refl, sym, ap, subst, ◌∙◌, ◌==◌, if◌then◌else◌, Option, none,
  some, List, [], ◌∷◌, Distinct, contains, arith, Bool-cases, inl, inr, eq_iff, eq_refl,
}
use luna_for_mac.Base.Result.{ok}
use luna_for_mac.Disk.{Diskv, IsLawful, IsReliable}
use luna_for_mac.Image.{
  Image, get_image_name_tag_and_digest, add_to_slice_without_duplicate, remove_from_slice,
}
use luna_for_mac.Image.Slices.{add-Distinct, contains-add, remove-Distinct, contains-remove}
use luna_for_mac.Image.Stored.{drop_blank, get_image}
use luna_for_mac.Image.Handlers.{Auth, pulled, is_only, is_last, pull_image, remove_image}
use luna_for_mac.Image.Pull.{get_image-pull_image}
use luna_for_mac.Image.Remove.{remaining, get_image-remove_image}
use luna_for_mac.Image.Catalog.{
  Set, nothing, with_one, without_one, IsOnlyOne, Entry, Catalog, entry_pulled, HasLast, IsRemoved,
  CatalogStep, pulls, removes, CatalogReach, same, also, Shows, ShowsEntry, ShowsCatalog,
  pulls_image, removes_image, Call, pull, remove, ImageReach, here, next,
}

Shows-empty : Shows [] nothing
Shows-empty = record { distinct = tt; filled = refl; elements = λ a. refl }

Shows-add :
    (item : String) (slice : List String) (set : Set)
    → Shows slice set
    → Shows (add_to_slice_without_duplicate item slice) (with_one item set)
Shows-add item slice set h = record {
  distinct = add-Distinct item slice h.distinct;
  filled = contains-add item "" slice ∙ rw h.filled (ground arith);
  elements = λ a. contains-add item a slice ∙ rw (h.elements a) refl;
}

drop_blank-filled : (slice : List String) → contains slice "" ≡ false → drop_blank slice ≡ slice
unfolding drop_blank
drop_blank-filled [] h = refl
drop_blank-filled (s ∷ []) h = ground arith
drop_blank-filled (s ∷ t ∷ ss) h = refl

Shows-remove :
    (item : String) (slice : List String) (set : Set)
    → Shows slice set
    → Shows (drop_blank (remove_from_slice item slice)) (without_one item set)
Shows-remove item slice set h =
    let filled : contains (remove_from_slice item slice) "" ≡ false =
      contains-remove item "" slice ∙ rw h.filled refl in
    subst (λ xs. Shows xs (without_one item set))
      (sym (drop_blank-filled (remove_from_slice item slice) filled))
      (record {
        distinct = remove-Distinct item slice h.distinct;
        filled = filled;
        elements = λ a. contains-remove item a slice ∙ rw (h.elements a) refl;
      })

-- Distinct texts that are all one are one.
is_only_lem :
    (item : String) (slice : List String) (set : Set)
    → Shows slice set
    → is_only item slice ≡ true
    → IsOnlyOne item set
is_only_lem item [] set h e a = cc
is_only_lem item (i ∷ []) set h e a = sym (h.elements a) ∙ ground (arith, eq_iff i item)
is_only_lem item (i ∷ j ∷ slice) set h e a = cc

only_is :
    (item : String) (slice : List String)
    → Distinct slice
    → ((a : String) → contains slice a ≡ (item == a))
    → is_only item slice ≡ true
only_is item [] d h = absurd (ground (arith, h item, eq_refl item))
only_is item (i ∷ []) d h = ground (arith, h item, eq_refl item)
only_is item (i ∷ j ∷ slice) d h =
    let first : item ≡ i = (eq_iff item i).0 (sym (h i) ∙ rw (eq_refl i) refl) in
    let second : item ≡ j = (eq_iff item j).0 (sym (h j) ∙ ground (arith, eq_refl j)) in
    absurd (ground (arith, d.0, eq_iff j i))

only_one-is_only :
    (item : String) (slice : List String) (set : Set)
    → Shows slice set
    → IsOnlyOne item set
    → is_only item slice ≡ true
only_one-is_only item slice set h o = only_is item slice h.distinct (λ a. h.elements a ∙ o a)

pulled-ShowsEntry :
    (name tag digest : String) (auth : Option Auth) (o : Option Image) (c : Option Entry)
    → ShowsEntry o c
    → ShowsEntry (some (pulled name tag digest auth o)) (some (entry_pulled tag digest c))
unfolding pulled
pulled-ShowsEntry name tag digest none none none h =
    (Shows-add tag [] nothing Shows-empty, Shows-add digest [] nothing Shows-empty)
pulled-ShowsEntry name tag digest (some a) none none h =
    (Shows-add tag [] nothing Shows-empty, Shows-add digest [] nothing Shows-empty)
pulled-ShowsEntry name tag digest none none (some e) h = elim h [ ]
pulled-ShowsEntry name tag digest (some a) none (some e) h = elim h [ ]
pulled-ShowsEntry name tag digest auth (some i) none h = elim h [ ]
pulled-ShowsEntry name tag digest auth (some i) (some e) h =
    (Shows-add tag i.tags e.0 h.0, Shows-add digest i.digests e.1 h.1)

is_last-HasLast :
    (tag digest : String) (i : Image) (e : Entry)
    → ShowsEntry (some i) (some e)
    → is_last tag digest i ≡ true
    → HasLast tag digest e
is_last-HasLast tag digest i e h last = elim (Bool-cases (is_only tag i.tags)) [
  | inl b ↦ inl (is_only_lem tag i.tags e.0 h.0 b)
  | inr b ↦ inr (is_only_lem digest i.digests e.1 h.1 (ground arith))
]

not_last :
    (tag digest : String) (i : Image) (e : Entry)
    → ShowsEntry (some i) (some e)
    → HasLast tag digest e
    → is_last tag digest i ≡ true
not_last tag digest i e h (inl o) = rw (only_one-is_only tag i.tags e.0 h.0 o) refl
not_last tag digest i e h (inr o) = rw (only_one-is_only digest i.digests e.1 h.1 o) (ground arith)

remaining-ShowsEntry :
    (tag digest : String) (o : Option Image) (c : Option Entry)
    → ShowsEntry o c
    → (d : Option Entry) × IsRemoved tag digest c d × ShowsEntry (remaining tag digest o) d
remaining-ShowsEntry tag digest none none h = (none, tt, tt)
remaining-ShowsEntry tag digest none (some e) h = elim h [ ]
remaining-ShowsEntry tag digest (some i) none h = elim h [ ]
remaining-ShowsEntry tag digest (some i) (some e) h = elim (Bool-cases (is_last tag digest i)) [
  | inl b ↦ rw b (none, is_last-HasLast tag digest i e h b, tt)
  | inr b ↦ rw b (
    some (without_one tag e.0, without_one digest e.1),
    ((λ last. cc (b, not_last tag digest i e h last)), refl),
    (Shows-remove tag i.tags e.0 h.0, Shows-remove digest i.digests e.1 h.1),
  )
]

-- One key is replaced, in the store and in the view.
replaced :
    (b : Bool) (o o' : Option Image) (c c' : Option Entry)
    → ShowsEntry o c
    → ShowsEntry o' c'
    → ShowsEntry (if b then o else o') (if b then c else c')
replaced true o o' c c' h h' = h
replaced false o o' c c' h h' = h'

module _ (D : Diskv) (hash : String → String) (L : IsLawful D) (R : IsReliable D) where
  Simulates : Call → (t : D.State) (c : Catalog) → Type 0
  Simulates call t c =
      (d : Catalog) × CatalogStep (get_image_name_tag_and_digest hash) c call d
      × ShowsCatalog D hash t d

  pull_image-Simulates :
      (s t : D.State) (c : Catalog) (name key : String) (auth : Option Auth)
      → ShowsCatalog D hash s c
      → pull_image D hash s (some name) auth ≡ (ok key, t)
      → Simulates (pull name) t c
  unfolding Simulates
  pull_image-Simulates s t c name key auth h e =
      let (own, tag, digest) = get_image_name_tag_and_digest hash name in
      let d : Catalog = λ k. if own == k then some (entry_pulled tag digest (c own)) else c k in
      (
        d,
        pulls name d (λ k. refl),
        λ k. rw ((get_image-pull_image D hash L s t name key auth e).1 k) (
            replaced (own == k) _ _ _ _
              (pulled-ShowsEntry name tag digest auth (get_image D s own) (c own) (h own)) (h k)),
      )

  remove_image-Simulates :
      (s : D.State) (c : Catalog) (name : String)
      → ShowsCatalog D hash s c
      → Simulates (remove name) (remove_image D hash s (some name)).1 c
  unfolding Simulates
  remove_image-Simulates s c name h =
      let (own, tag, digest) = get_image_name_tag_and_digest hash name in
      let (left, removed, shown) =
        remaining-ShowsEntry tag digest (get_image D s own) (c own) (h own) in
      let d : Catalog = λ k. if own == k then left else c k in
      (
        d,
        removes name d
            (subst (IsRemoved tag digest (c own))
              (ap (λ b. if b then left else c own) (sym (eq_refl own))) removed)
            (λ k other. ap (λ b. if b then left else c k) other),
        λ k.
            rw ((get_image-remove_image D hash L R s name).1 k)
              (replaced (own == k) _ _ _ _ shown (h k)),
      )

  -- Whatever pulls that succeed and removals the image service handles, in whatever order, the sets
  -- of tags and digests that its records show are sets that the same calls may make of those shown
  -- before: a pull adds the name's tag or digest under the name's key, a removal takes it away, an
  -- entry goes with its last tag or with its last digest, and no other key changes. The records
  -- show sets at the start: no text twice, and none empty. The disk is lawful and reliable.
  pub ImageReach-ShowsCatalog :
      (s : D.State) (c : Catalog) (calls : List Call) (t : D.State)
      → ImageReach D hash s calls t
      → ShowsCatalog D hash s c
      → (d : Catalog) × CatalogReach (get_image_name_tag_and_digest hash) c calls d
        × ShowsCatalog D hash t d
  unfolding Simulates
  ImageReach-ShowsCatalog s c calls t here h = (c, same, h)
  ImageReach-ShowsCatalog s c calls t (next r (pulls_image name key auth u e)) h =
      let (d, steps, shown) = ImageReach-ShowsCatalog s c _ _ r h in
      let (f, step, shown_too) = pull_image-Simulates _ _ d name key auth shown e in
      (f, also steps step, shown_too)
  ImageReach-ShowsCatalog s c calls t (next r (removes_image name)) h =
      let (d, steps, shown) = ImageReach-ShowsCatalog s c _ _ r h in
      let (f, step, shown_too) = remove_image-Simulates _ d name shown in
      (f, also steps step, shown_too)
