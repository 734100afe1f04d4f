-- ===== src/Runtime/Records/Laws.antt =====
-- The records of the data store behave as two maps, one of containers and one of sandboxes, at ids
-- that hold no slash, on a disk that does its work.
use mathlib.Core.Option
use luna_for_mac.Base.{
  String, ◌≡◌, refl, ◌∙◌, sym, none, some, ◌==◌, if◌then◌else◌, Lacks, eq_iff, Bool-cases,
  Option-cases, inl, inr,
}
use luna_for_mac.Path.{slash}
use luna_for_mac.Json.{Json}
use luna_for_mac.Json.Laws.{>>=-eq-some}
use luna_for_mac.Disk.{Diskv, IsLawful, IsReliable, or_same}
use luna_for_mac.Runtime.Container
use luna_for_mac.Runtime.Container.{
  Container, of_container, to_container, to_container-of_container, to_container-Fits,
}
use luna_for_mac.Runtime.Sandbox
use luna_for_mac.Runtime.Sandbox.{
  Sandbox, of_sandbox, to_sandbox, to_sandbox-of_sandbox, to_sandbox-Fits,
}
use luna_for_mac.Runtime.Records.{
  make_container_key, make_sandbox_key, get_container, put_container, delete_container, get_sandbox,
  put_sandbox, delete_sandbox,
}
use luna_for_mac.Runtime.Records.Keys.{
  container_key_eq, sandbox_key_eq, container_sandbox_key_eq, sandbox_container_key_eq,
}

module _ (D : Diskv) (L : IsLawful D) (R : IsReliable D) where
  read-write_same :
      (s : D.State) (k j : String) (v : Json)
      → D.read (or_same D s (D.write s k v)) j ≡ (if k == j then some v else D.read s j)
  read-write_same s k j v = let (t, e) = R.write_ok s k v in rw e (L.read-write s t k j v e)

  missing : (s : D.State) (k : String) → D.erase s k ≡ none → D.read s k ≡ none
  missing s k e = elim (Option-cases (D.read s k)) [
    | inl f ↦ f
    | inr (v, f) ↦ let (t, g) = R.erase_ok s k v f in absurd (Option.none-ne-some t (sym e ∙ g))
  ]

  erased_missing :
      (s : D.State) (k j : String)
      → D.read s k ≡ none
      → D.read s j ≡ (if k == j then none else D.read s j)
  erased_missing s k j h = elim (Bool-cases (k == j)) [
    | inl e ↦ rw e (rw (← (eq_iff k j).0 e) h)
    | inr e ↦ rw e refl
  ]

  read-erase_same :
      (s : D.State) (k j : String)
      → D.read (or_same D s (D.erase s k)) j ≡ (if k == j then none else D.read s j)
  read-erase_same s k j = elim (Option-cases (D.erase s k)) [
    | inr (t, e) ↦ rw e (L.read-erase s t k j e)
    | inl e ↦ rw e (erased_missing s k j (missing s k e))
  ]

  module _ (s : D.State) (i k : String) (plain_i : Lacks slash i) (plain_k : Lacks slash k) where
    -- The store after a container was put under an id, at an id: both without a slash, the container
    -- within the ranges of its Go types, and the disk lawful and reliable. It holds that container
    -- under that id, and under another id what it held before.
    pub get_container-put_container :
        (c : Container)
        → Container.Fits c
        → get_container D (put_container D s i c) k
          ≡ (if i == k then some c else get_container D s k)
    unfolding get_container put_container
    get_container-put_container c h =
        rw
          (
            read-write_same s (make_container_key i) (make_container_key k) (of_container c),
            container_key_eq i k plain_i plain_k,
          )
          (elim (Bool-cases (i == k)) [
            | inl e ↦ rw (e, to_container-of_container c h) refl
            | inr e ↦ rw e refl
          ])

    pub get_container-delete_container :
        get_container D (delete_container D s i) k ≡ (if i == k then none else get_container D s k)
    unfolding get_container delete_container
    get_container-delete_container =
        rw
          (
            read-erase_same s (make_container_key i) (make_container_key k),
            container_key_eq i k plain_i plain_k,
          )
          (elim (Bool-cases (i == k)) [ inl e ↦ rw e refl | inr e ↦ rw e refl ])

    pub get_container-put_sandbox :
        (c : Sandbox) → get_container D (put_sandbox D s i c) k ≡ get_container D s k
    unfolding get_container put_sandbox
    get_container-put_sandbox c =
        rw
          (
            read-write_same s (make_sandbox_key i) (make_container_key k) (of_sandbox c),
            sandbox_container_key_eq i k plain_i plain_k,
          )
          refl

    pub get_container-delete_sandbox :
        get_container D (delete_sandbox D s i) k ≡ get_container D s k
    unfolding get_container delete_sandbox
    get_container-delete_sandbox =
        rw
          (
            read-erase_same s (make_sandbox_key i) (make_container_key k),
            sandbox_container_key_eq i k plain_i plain_k,
          )
          refl

    pub get_sandbox-put_sandbox :
        (c : Sandbox)
        → Sandbox.Fits c
        → get_sandbox D (put_sandbox D s i c) k ≡ (if i == k then some c else get_sandbox D s k)
    unfolding get_sandbox put_sandbox
    get_sandbox-put_sandbox c h =
        rw
          (
            read-write_same s (make_sandbox_key i) (make_sandbox_key k) (of_sandbox c),
            sandbox_key_eq i k plain_i plain_k,
          )
          (elim (Bool-cases (i == k)) [
            | inl e ↦ rw (e, to_sandbox-of_sandbox c h) refl
            | inr e ↦ rw e refl
          ])

    pub get_sandbox-delete_sandbox :
        get_sandbox D (delete_sandbox D s i) k ≡ (if i == k then none else get_sandbox D s k)
    unfolding get_sandbox delete_sandbox
    get_sandbox-delete_sandbox =
        rw
          (
            read-erase_same s (make_sandbox_key i) (make_sandbox_key k),
            sandbox_key_eq i k plain_i plain_k,
          )
          (elim (Bool-cases (i == k)) [ inl e ↦ rw e refl | inr e ↦ rw e refl ])

    pub get_sandbox-put_container :
        (c : Container) → get_sandbox D (put_container D s i c) k ≡ get_sandbox D s k
    unfolding get_sandbox put_container
    get_sandbox-put_container c =
        rw
          (
            read-write_same s (make_container_key i) (make_sandbox_key k) (of_container c),
            container_sandbox_key_eq i k plain_i plain_k,
          )
          refl

    pub get_sandbox-delete_container : get_sandbox D (delete_container D s i) k ≡ get_sandbox D s k
    unfolding get_sandbox delete_container
    get_sandbox-delete_container =
        rw
          (
            read-erase_same s (make_container_key i) (make_sandbox_key k),
            container_sandbox_key_eq i k plain_i plain_k,
          )
          refl

-- Whatever document the disk holds, a container that is read from it is within the ranges of its Go
-- types, and its maps have no key twice.
pub get_container-Fits :
    (D : Diskv) (s : D.State) (k : String) (c : Container)
    → get_container D s k ≡ some c
    → Container.Fits c
unfolding get_container
get_container-Fits D s k c h =
    let (j, _, e) = >>=-eq-some (D.read s (make_container_key k)) to_container h in
    to_container-Fits j c e

pub get_sandbox-Fits :
    (D : Diskv) (s : D.State) (k : String) (c : Sandbox)
    → get_sandbox D s k ≡ some c
    → Sandbox.Fits c
unfolding get_sandbox
get_sandbox-Fits D s k c h =
    let (j, _, e) = >>=-eq-some (D.read s (make_sandbox_key k)) to_sandbox h in
    to_sandbox-Fits j c e
