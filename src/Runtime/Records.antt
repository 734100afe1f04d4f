-- ===== src/Runtime/Records.antt =====
-- Containers and sandboxes in the data store: the functions make*Key, get*, put*, delete* and list*
-- of container.go and podsandbox.go.
pub mod Keys
pub mod Laws
use luna_for_mac.Base.{
  ℕ, String, Bool, Option, none, some, List, [], ◌∷◌, ◌>>=◌, ◌<>◌, has_prefix, if◌then◌else◌,
}
use luna_for_mac.Path.{join_path}
use luna_for_mac.Disk.{Diskv, or_same}
use luna_for_mac.Runtime.Container.{Container, of_container, to_container}
use luna_for_mac.Runtime.Sandbox.{Sandbox, of_sandbox, to_sandbox}

abbrev pub container_subdir : String
container_subdir = "container/"

abbrev pub container_prefix : String
container_prefix = "cnt_"

abbrev pub sandbox_subdir : String
sandbox_subdir = "sandbox/"

abbrev pub sandbox_prefix : String
sandbox_prefix = "sb_"

unfoldable pub make_container_key : String → String
unfolding join_path
make_container_key key = join_path container_subdir (container_prefix <> key)

unfoldable pub make_sandbox_key : String → String
unfolding join_path
make_sandbox_key key = join_path sandbox_subdir (sandbox_prefix <> key)

unfoldable pub make_pod_id : String → String → String
make_pod_id namespace name = namespace <> ("_" <> name)

-- `strings.Replace(key, prefix, "", 1)` of a key that has the prefix
abbrev pub without_prefix : String → String → String
without_prefix String.[] s = s
without_prefix (String.◌∷◌ c p) String.[] = String.[]
without_prefix (String.◌∷◌ c p) (String.◌∷◌ d s) = without_prefix p s

module _ (D : Diskv) where
  unfoldable pub get_container : D.State → String → Option Container
  unfolding make_container_key to_container
  get_container s key = D.read s (make_container_key key) >>= to_container

  unfoldable pub put_container : D.State → String → Container → D.State
  unfolding make_container_key of_container
  put_container s key c = or_same D s (D.write s (make_container_key key) (of_container c))

  unfoldable pub delete_container : D.State → String → D.State
  unfolding make_container_key
  delete_container s key = or_same D s (D.erase s (make_container_key key))

  unfoldable pub get_sandbox : D.State → String → Option Sandbox
  unfolding make_sandbox_key to_sandbox
  get_sandbox s key = D.read s (make_sandbox_key key) >>= to_sandbox

  unfoldable pub put_sandbox : D.State → String → Sandbox → D.State
  unfolding make_sandbox_key of_sandbox
  put_sandbox s key c = or_same D s (D.write s (make_sandbox_key key) (of_sandbox c))

  unfoldable pub delete_sandbox : D.State → String → D.State
  unfolding make_sandbox_key
  delete_sandbox s key = or_same D s (D.erase s (make_sandbox_key key))

  -- The loop over the keys that have a prefix; an entry that cannot be read is left out.
  unfoldable pub entries : {A : Type 0} → (String → Option A) → String → List String → List A
  entries get prefix [] = []
  entries get prefix (key ∷ keys) =
      let rest = entries get prefix keys in
      if has_prefix key prefix
      then elim (get (without_prefix prefix key)) [ none ↦ rest | some entry ↦ entry ∷ rest ]
      else rest

  unfoldable pub list_containers : D.State → List Container
  unfolding entries get_container
  list_containers s = entries (get_container s) container_prefix (D.keys s)

  unfoldable pub list_sandboxes : D.State → List Sandbox
  unfolding entries get_sandbox
  list_sandboxes s = entries (get_sandbox s) sandbox_prefix (D.keys s)
