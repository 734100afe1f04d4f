-- ===== src/Image.antt =====
-- The image service, procri/pkg/imageservice/imageservice.go. Images are not fetched: the service
-- keeps a record of each name that was pulled, with its tags and digests.
pub mod Stored
pub mod Handlers
pub mod Listed
pub mod Names
pub mod Slices
pub mod Pull
pub mod Remove
pub mod Keys
pub mod Distinct
pub mod FsInfo
pub mod Catalog
mod Tests
use luna_for_mac.Base.{
  ℕ, String, Bool, ◌==◌, List, [], ◌∷◌, ◌++◌, if◌then◌else◌, ◌<>◌, contains, contains_text, split,
}

pub record Image : Type 0 where
  pub image : String
  pub username : String
  pub password : String
  pub auth : String
  pub server_address : String
  pub identity_token : String
  pub registry_token : String
  pub tags : List String
  pub digests : List String

-- `imageParts[0]`: Split gives at least one part.
abbrev pub first_part : List String → String
first_part [] = ""
first_part (p ∷ ps) = p

-- The tag of a name that was split at its colons.
abbrev tag_of : String → List String → String
tag_of image (p ∷ q ∷ ps) = image
tag_of image parts = first_part parts <> ":latest"

-- `getImageNameTagAndDigest`. `hash` is `makeImgKey`, the hexadecimal SHA-256 of the name.
module _ (hash : String → String) where
  unfoldable pub get_image_name_tag_and_digest : String → String × String × String
  unfolding split
  get_image_name_tag_and_digest image =
      if contains_text image "@sha256"
      then (hash (first_part (split b'@' image)), "", image)
      else (hash (first_part (split b':' image)), tag_of image (split b':' image), "")

-- `addToSliceWithoutDuplicate`
unfoldable pub add_to_slice_without_duplicate : String → List String → List String
add_to_slice_without_duplicate item slice =
    if item == "" then slice else if contains slice item then slice else slice ++ item ∷ []

-- `removeFromSlice`
unfoldable pub remove_from_slice : String → List String → List String
remove_from_slice item [] = []
remove_from_slice item (i ∷ slice) =
    let rest = remove_from_slice item slice in if i == item then rest else i ∷ rest
