-- ===== src/Runtime/Records/Keys.antt =====
-- The file names of containers and sandboxes whose ids hold no slash: an id is its file's own, and no
-- container shares a file with a sandbox.
use luna_for_mac.Base.{
  String, false, ◌≡◌, refl, ◌==◌, ◌<>◌, Lacks, split-Lacks, filled, heads_differ, append_eq,
}
use luna_for_mac.Path.{slash}
use luna_for_mac.Runtime.Records.{make_container_key, make_sandbox_key}

pub make_container_key-plain :
    (id : String) → Lacks slash id → make_container_key id ≡ "container/cnt_" <> id
unfolding make_container_key
make_container_key-plain id l =
    rw
      (
        split-Lacks slash id l,
        filled "c" ("nt_" <> id),
        heads_differ "c" "." ("nt_" <> id) "" refl,
        heads_differ "c" "." ("nt_" <> id) "." refl,
      )
      refl

pub make_sandbox_key-plain :
    (id : String) → Lacks slash id → make_sandbox_key id ≡ "sandbox/sb_" <> id
unfolding make_sandbox_key
make_sandbox_key-plain id l =
    rw
      (
        split-Lacks slash id l,
        filled "s" ("b_" <> id),
        heads_differ "s" "." ("b_" <> id) "" refl,
        heads_differ "s" "." ("b_" <> id) "." refl,
      )
      refl

module _ (i j : String) (plain_i : Lacks slash i) (plain_j : Lacks slash j) where
  -- Two ids without a slash have the same key of a container exactly when they are the same id.
  pub container_key_eq : (make_container_key i == make_container_key j) ≡ (i == j)
  container_key_eq =
      rw (make_container_key-plain i plain_i, make_container_key-plain j plain_j)
        (append_eq "container/cnt_" i j)

  pub sandbox_key_eq : (make_sandbox_key i == make_sandbox_key j) ≡ (i == j)
  sandbox_key_eq =
      rw (make_sandbox_key-plain i plain_i, make_sandbox_key-plain j plain_j)
        (append_eq "sandbox/sb_" i j)

  -- A container and a sandbox whose ids hold no slash have different keys.
  pub container_sandbox_key_eq : (make_container_key i == make_sandbox_key j) ≡ false
  container_sandbox_key_eq =
      rw (make_container_key-plain i plain_i, make_sandbox_key-plain j plain_j)
        (heads_differ "c" "s" ("ontainer/cnt_" <> i) ("andbox/sb_" <> j) refl)

  pub sandbox_container_key_eq : (make_sandbox_key i == make_container_key j) ≡ false
  sandbox_container_key_eq =
      rw (make_sandbox_key-plain i plain_i, make_container_key-plain j plain_j)
        (heads_differ "s" "c" ("andbox/sb_" <> i) ("ontainer/cnt_" <> j) refl)
