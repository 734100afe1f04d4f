-- ===== src/Image/Stored.antt =====
-- How an image is stored: the document that encoding/json makes of the struct, and the functions
-- getImage, marshalAndSave, putImage, deleteImage and listImages.
use luna_for_mac.Base.{
  String, ◌≡◌, refl, Option, none, some, List, [], ◌∷◌, ◌==◌, if◌then◌else◌, ◌>>=◌,
}
use luna_for_mac.Json.{
  Json, Fields, str, arr, obj, null, end, field, of_texts, to_text, to_texts, find_field,
  read_field,
}
use luna_for_mac.Json.Laws.{to_texts-of_texts}
use luna_for_mac.Disk.{Diskv, or_same}
use luna_for_mac.Image.{Image}

-- `omitempty`: an empty slice is left out.
abbrev omit_empty : String → List String → Fields → Fields
omit_empty k [] fs = fs
omit_empty k (s ∷ ss) fs = field k (arr (of_texts (s ∷ ss))) fs

image_fields : Image → List String → List String → Fields
image_fields i tags digests = field "image" (str i.image) (
    field "username" (str i.username) (
      field "password" (str i.password) (
        field "auth" (str i.auth) (
          field "serverAddress" (str i.server_address) (
            field "identityToken" (str i.identity_token) (
              field "registryToken" (str i.registry_token)
                (omit_empty "Tags" tags (omit_empty "Digests" digests end))))))))

unfoldable pub of_image : Image → Json
unfolding image_fields
of_image i = obj (image_fields i i.tags i.digests)

image_of_fields : Fields → Option Image
image_of_fields fs = read_field to_text "image" fs >>= λ image.
    read_field to_text "username" fs >>= λ username.
    read_field to_text "password" fs >>= λ password. read_field to_text "auth" fs >>= λ auth.
    read_field to_text "serverAddress" fs >>= λ server_address.
    read_field to_text "identityToken" fs >>= λ identity_token.
    read_field to_text "registryToken" fs >>= λ registry_token.
    read_field to_texts "Tags" fs >>= λ tags. read_field to_texts "Digests" fs >>= λ digests.
    some (record {
      image = image;
      username = username;
      password = password;
      auth = auth;
      server_address = server_address;
      identity_token = identity_token;
      registry_token = registry_token;
      tags = tags;
      digests = digests;
    })

unfoldable pub to_image : Json → Option Image
unfolding image_of_fields
to_image (obj fs) = image_of_fields fs
to_image null = image_of_fields end
to_image _ = none

image_of_fields-image_fields :
    (i : Image) (tags digests : List String)
    → image_of_fields (image_fields i tags digests)
      ≡ some (record i { tags = tags; digests = digests })
unfolding image_of_fields image_fields find_field
image_of_fields-image_fields i [] [] = refl
image_of_fields-image_fields i (t ∷ ts) [] = rw (to_texts-of_texts (t ∷ ts)) refl
image_of_fields-image_fields i [] (d ∷ ds) = rw (to_texts-of_texts (d ∷ ds)) refl
image_of_fields-image_fields i (t ∷ ts) (d ∷ ds) =
    rw (to_texts-of_texts (t ∷ ts), to_texts-of_texts (d ∷ ds)) refl

-- An image is read back from its document as it was.
pub to_image-of_image : (i : Image) → to_image (of_image i) ≡ some i
unfolding to_image of_image
to_image-of_image i = image_of_fields-image_fields i i.tags i.digests

-- A slice whose only element is empty is read as an empty one.
unfoldable pub drop_blank : List String → List String
drop_blank [] = []
drop_blank (s ∷ []) = if s == "" then [] else s ∷ []
drop_blank (s ∷ t ∷ ss) = s ∷ t ∷ ss

abbrev pub drop_blanks : Image → Image
drop_blanks i = record i { tags = drop_blank i.tags; digests = drop_blank i.digests }

module _ (D : Diskv) where
  unfoldable pub get_image : D.State → String → Option Image
  unfolding drop_blank to_image
  get_image s key = D.read s key >>= λ j. to_image j >>= λ i. some (drop_blanks i)

  -- `none` if the image cannot be saved.
  unfoldable pub put_image : D.State → String → Image → Option D.State
  unfolding of_image
  put_image s key i = D.write s key (of_image i)

  unfoldable pub delete_image : D.State → String → D.State
  delete_image s key = or_same D s (D.erase s key)

  unfoldable pub images_at : D.State → List String → List Image
  unfolding get_image
  images_at s [] = []
  images_at s (key ∷ keys) =
      let rest = images_at s keys in elim (get_image s key) [ none ↦ rest | some i ↦ i ∷ rest ]

  unfoldable pub list_images : D.State → List Image
  unfolding images_at
  list_images s = images_at s (D.keys s)
