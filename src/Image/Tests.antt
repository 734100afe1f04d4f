-- ===== src/Image/Tests.antt =====
-- The image service on a store in memory: the theorems at a name that is pulled and removed.
mod Listed
use luna_for_mac.Base.{String, ◌≡◌, refl, none, some, [], ◌∷◌, ◌==◌, if◌then◌else◌, ◌<>◌}
use luna_for_mac.Base.Result.{ok}
use luna_for_mac.Json.{find_field, to_texts_items, of_texts}
use luna_for_mac.Disk.Memory.{Files, find, memory, memory-IsLawful, memory-IsReliable}
use luna_for_mac.Image.{Image, get_image_name_tag_and_digest}
use luna_for_mac.Image.Stored.{get_image}
use luna_for_mac.Image.Handlers.{known, pulled, image_status, pull_image, remove_image}
use luna_for_mac.Image.Pull.{get_image-pull_image}
use luna_for_mac.Image.Remove.{remaining, get_image-remove_image, remove_image-pull_image}
use luna_for_mac.Image.Keys.{image_status_of_other_name, image_status-remove_image}
use luna_for_mac.Image.Catalog.{
  Catalog, CatalogReach, ShowsCatalog, ImageReach, here, next, pulls_image, removes_image, pull,
  remove,
}
use luna_for_mac.Image.Catalog.Refines.{ImageReach-ShowsCatalog}
use luna_for_mac.Image.Distinct.{IsDistinct}

-- A hash without collisions.
abbrev pub key_of : String → String
key_of name = name

abbrev pub name : String
name = "busybox:1.31"

abbrev pub after : Files → String → Files
after s n = (pull_image memory key_of s (some n) none).1

abbrev pub store : Files
store = after [] name

pub pulls_name : pull_image memory key_of [] (some name) none ≡ (ok "busybox", store)
unfolding pull_image get_image_name_tag_and_digest
pulls_name = refl

pulls_again : pull_image memory key_of store (some name) none ≡ (ok "busybox", after store name)
unfolding pull_image get_image_name_tag_and_digest
pulls_again = refl

test_names :
    (get_image_name_tag_and_digest key_of "busybox" ≡ ("busybox", "busybox:latest", ""))
    × (get_image_name_tag_and_digest key_of "busybox:1.31" ≡ ("busybox", "busybox:1.31", ""))
    × (get_image_name_tag_and_digest key_of "busybox@sha256:12"
        ≡ ("busybox", "", "busybox@sha256:12"))
unfolding get_image_name_tag_and_digest
test_names = (refl, refl, refl)

abbrev pub an_image : Image
an_image = record {
  image = name;
  username = "";
  password = "";
  auth = "";
  server_address = "";
  identity_token = "";
  registry_token = "";
  tags = name ∷ [];
  digests = [];
}

nothing_stored : get_image memory [] (get_image_name_tag_and_digest key_of name).0 ≡ none
unfolding get_image find
nothing_stored = refl

remove_image-pull_image_example :
    let (answer, u) = remove_image memory key_of store (some name) in
    (answer ≡ ok tt) × ((k : String) → get_image memory u k ≡ get_image memory [] k)
remove_image-pull_image_example =
    remove_image-pull_image memory key_of memory-IsLawful memory-IsReliable [] store name "busybox"
      none nothing_stored pulls_name

-- A registry with a port: the two repositories have the key of the registry.
abbrev port_store : Files
port_store = after [] ("reg" <> (":" <> "5000/a"))

pulls_from_port :
    pull_image memory key_of [] (some ("reg" <> (":" <> "5000/a"))) none ≡ (ok "reg", port_store)
unfolding pull_image get_image_name_tag_and_digest
pulls_from_port = refl

image_status_of_other_name_example :
    (i : Image) × (get_image memory port_store (key_of "reg") ≡ some i)
    × (image_status memory key_of port_store (some ("reg" <> (":" <> "5000/b")))
        ≡ some (known ("reg" <> (":" <> "5000/b")) i))
image_status_of_other_name_example =
    image_status_of_other_name memory key_of memory-IsLawful [] port_store "reg" "5000/a" "5000/b"
      "reg" none (refl, (refl, (refl, tt))) refl refl pulls_from_port

nothing-IsDistinct : IsDistinct memory key_of memory-IsLawful []
unfolding get_image find
nothing-IsDistinct k = tt

-- Before any pull the records show nothing.
nothing_shown : ShowsCatalog memory key_of [] (λ k. none)
unfolding get_image find
nothing_shown k = tt

-- A pull, and then the removal of another name.
pulls_and_removes :
    ImageReach memory key_of []
      (remove "alpine" ∷ pull name ∷ [])
      (remove_image memory key_of store (some "alpine")).1
pulls_and_removes =
    next (next here (pulls_image name "busybox" none store pulls_name)) (removes_image "alpine")

ImageReach-ShowsCatalog_example :
    (d : Catalog) × CatalogReach
      (get_image_name_tag_and_digest key_of)
      (λ k. none)
      (remove "alpine" ∷ pull name ∷ [])
      d
    × ShowsCatalog memory key_of (remove_image memory key_of store (some "alpine")).1 d
ImageReach-ShowsCatalog_example =
    ImageReach-ShowsCatalog memory key_of memory-IsLawful memory-IsReliable [] (λ k. none)
      (remove "alpine" ∷ pull name ∷ []) _ pulls_and_removes nothing_shown
