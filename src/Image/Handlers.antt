-- ===== src/Image/Handlers.antt =====
-- The four handlers of cri.ImageService that read or write the store: ListImages, ImageStatus,
-- PullImage and RemoveImage. A request's nil `Image` is `none`, and `some name` otherwise.
use luna_for_mac.Base.{
  ℕ, String, Bool, true, false, Option, none, some, List, [], ◌∷◌, ◌==◌, ◌||◌, if◌then◌else◌,
}
use luna_for_mac.Base.Result.{Result, ok, err}
use luna_for_mac.Disk.{Diskv}
use luna_for_mac.Image.{
  Image, get_image_name_tag_and_digest, add_to_slice_without_duplicate, remove_from_slice,
}
use luna_for_mac.Image.Stored.{get_image, put_image, delete_image, list_images}

pub data Error : Type 0 where
  nil_image : Error
  not_saved : String → Error

-- cri.AuthConfig
pub record Auth : Type 0 where
  pub auth : String
  pub username : String
  pub password : String
  pub server_address : String
  pub identity_token : String
  pub registry_token : String

-- cri.Image. The service always gives the user 0 and no user name.
pub record CriImage : Type 0 where
  pub id : String
  pub repo_tags : List String
  pub repo_digests : List String
  pub size : ℕ
  pub uid : ℕ
  pub username : String

abbrev pub listed : Image → CriImage
listed i = record {
  id = i.image;
  repo_tags = i.tags;
  repo_digests = i.digests;
  size = 0;
  uid = 0;
  username = "";
}

abbrev pub passes : Option String → Image → Bool
passes none i = true
passes (some name) i = name == i.image

-- The loop of ListImages, over the filter's image name, if it has one.
unfoldable pub select : Option String → List Image → List CriImage
select filter [] = []
select filter (i ∷ is) =
    let rest = select filter is in if passes filter i then listed i ∷ rest else rest

-- The answer of ImageStatus for an image that it found.
abbrev pub known : String → Image → CriImage
known name i = record {
  id = name;
  repo_tags = i.tags;
  repo_digests = i.digests;
  size = 1;
  uid = 0;
  username = "";
}

unfoldable pub status_of : String → Option Image → Option CriImage
status_of name none = none
status_of name (some i) = some (known name i)

authenticated : Option Auth → Image → Image
authenticated none i = i
authenticated (some a) i = record i {
  auth = a.auth;
  username = a.username;
  password = a.password;
  server_address = a.server_address;
  identity_token = a.identity_token;
  registry_token = a.registry_token;
}

-- The image that PullImage saves, given the one that it found.
unfoldable pub pulled : String → String → String → Option Auth → Option Image → Image
unfolding authenticated add_to_slice_without_duplicate
pulled name tag digest auth (some i) = record i {
  tags = add_to_slice_without_duplicate tag i.tags;
  digests = add_to_slice_without_duplicate digest i.digests;
}
pulled name tag digest auth none = authenticated auth (record {
  image = name;
  username = "";
  password = "";
  auth = "";
  server_address = "";
  identity_token = "";
  registry_token = "";
  tags = add_to_slice_without_duplicate tag [];
  digests = add_to_slice_without_duplicate digest [];
})

-- `len(slice) == 1 && slice[0] == item`
abbrev pub is_only : String → List String → Bool
is_only item (i ∷ []) = i == item
is_only item _ = false

-- Whether RemoveImage deletes the whole entry.
abbrev pub is_last : String → String → Image → Bool
is_last tag digest i = is_only tag i.tags || is_only digest i.digests

module _ (D : Diskv) (hash : String → String) where
  unfoldable pub list_images_handler : D.State → Option String → List CriImage
  unfolding list_images select
  list_images_handler s filter = select filter (list_images D s)

  -- The response's `Image`, which may be nil.
  unfoldable pub image_status : D.State → Option String → Option CriImage
  unfolding status_of get_image
  image_status s none = none
  image_status s (some name) =
      status_of name (get_image D s (get_image_name_tag_and_digest hash name).0)

  unfoldable pub save_pulled : D.State → String → Image → Result Error String × D.State
  unfolding put_image
  save_pulled s key i = elim (put_image D s key i) [
    | none ↦ (err (not_saved key), s)
    | some t ↦ (ok key, t)
  ]

  unfoldable pub pull_image : D.State → Option String → Option Auth → Result Error String × D.State
  unfolding save_pulled get_image pulled
  pull_image s none auth = (err nil_image, s)
  pull_image s (some name) auth =
      let (key, tag, digest) = get_image_name_tag_and_digest hash name in
      save_pulled s key (pulled name tag digest auth (get_image D s key))

  -- Its response is empty.
  unfoldable pub remove_found :
      D.State → String → String → String → Option Image → Result Error (Unit {0}) × D.State
  unfolding put_image delete_image remove_from_slice
  remove_found s key tag digest none = (ok tt, s)
  remove_found s key tag digest (some i) =
      if is_last tag digest i
      then (ok tt, delete_image D s key)
      else elim (put_image D s key (record i {
        tags = remove_from_slice tag i.tags;
        digests = remove_from_slice digest i.digests;
      })) [ none ↦ (err (not_saved key), s) | some t ↦ (ok tt, t) ]

  unfoldable pub remove_image : D.State → Option String → Result Error (Unit {0}) × D.State
  unfolding remove_found get_image
  remove_image s none = (err nil_image, s)
  remove_image s (some name) =
      let (key, tag, digest) = get_image_name_tag_and_digest hash name in
      remove_found s key tag digest (get_image D s key)
