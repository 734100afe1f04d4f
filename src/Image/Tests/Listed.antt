-- ===== src/Image/Tests/Listed.antt =====
-- ListImages on the store in memory: one repository, pulled under two names.
use mathlib.Core.Option.{some-injective}
use luna_for_mac.Base.{
  String, false, ◌≡◌, ◌↔◌, refl, sym, ap, ◌∙◌, some, none, [], ◌∷◌, ◌==◌, if◌then◌else◌, In, true,
  Bool-cases, inl, inr,
}
use luna_for_mac.Base.Result.{ok}
use luna_for_mac.Json.{find_field, to_texts_items, of_texts}
use luna_for_mac.Disk.Memory.{find, memory, memory-IsLawful, memory-IsListing}
use luna_for_mac.Image.{Image, get_image_name_tag_and_digest}
use luna_for_mac.Image.Stored.{get_image}
use luna_for_mac.Image.Handlers.{known, listed, pull_image, image_status, list_images_handler}
use luna_for_mac.Image.Pull.{get_image-pull_image}
use luna_for_mac.Image.Listed.{IsFound, IsWanted, list_images_handler_iff, list_images_misses}
use luna_for_mac.Image.Tests.{key_of, name, after, store, pulls_name, an_image}

list_images_handler_iff_example :
    In (listed an_image) (list_images_handler memory key_of store (some name)) ↔ (
      (i : Image) × IsFound memory store i
      × IsWanted (some name) i
      × (listed an_image ≡ record {
        id = i.image;
        repo_tags = i.tags;
        repo_digests = i.digests;
        size = 0;
        uid = 0;
        username = "";
      }))
list_images_handler_iff_example =
    list_images_handler_iff memory key_of memory-IsListing store (some name) (listed an_image)

abbrev other_name : String
other_name = "busybox:1.30"

pulls_other :
    pull_image memory key_of store (some other_name) none ≡ (ok "busybox", after store other_name)
unfolding pull_image get_image_name_tag_and_digest
pulls_other = refl

stored : get_image memory store (get_image_name_tag_and_digest key_of other_name).0 ≡ some an_image
unfolding get_image find pull_image get_image_name_tag_and_digest find_field to_texts_items of_texts
stored = refl

stored_at : get_image memory store "busybox" ≡ some an_image
unfolding get_image find pull_image get_image_name_tag_and_digest find_field to_texts_items of_texts
stored_at = refl

own_key : (get_image_name_tag_and_digest key_of name).0 ≡ "busybox"
unfolding get_image_name_tag_and_digest
own_key = refl

absent : (k : String) → get_image memory [] k ≡ none
unfolding get_image find
absent k = refl

unnamed :
    (j : Image) (k : String) → get_image memory store k ≡ some j → (other_name == j.image) ≡ false
unnamed j k e =
    let at =
      (get_image-pull_image memory key_of memory-IsLawful [] store name "busybox" none
        pulls_name).1 in
    elim (Bool-cases ((get_image_name_tag_and_digest key_of name).0 == k)) [
      | inl same ↦
          let key = sym own_key ∙ (luna_for_mac.Base.eq_iff _ k).0 same in
          let one : some j ≡ some an_image =
            sym e ∙ ap (get_image memory store) (sym key) ∙ stored_at in
          ap (λ (i : Image). other_name == i.image) (some-injective _ _ one)
      | inr other ↦
          let there : get_image memory store k ≡ get_image memory [] k = rw other at (at k) in
          cc (e, there ∙ absent k)
    ]

list_images_misses_example :
    ((j : Image) × (image_status memory key_of (after store other_name) (some other_name)
        ≡ some (known other_name j)))
    × (list_images_handler memory key_of (after store other_name) (some other_name) ≡ [])
list_images_misses_example =
    list_images_misses memory key_of memory-IsLawful memory-IsListing store (after store other_name)
      other_name "busybox" none an_image pulls_other stored unnamed
