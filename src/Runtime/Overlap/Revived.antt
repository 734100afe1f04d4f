-- ===== src/Runtime/Overlap/Revived.antt =====
-- A call of CreateContainer during which its sandbox is removed.
use luna_for_mac.Base.{
  String, true, false, ◌≡◌, refl, ap, ◌∙◌, sym, subst, none, some, List, [], ◌∷◌, ◌==◌,
  if◌then◌else◌, arith, Lacks, All, contains, eq_iff, Bool-cases, inl, inr,
}
use luna_for_mac.Base.Int.{int_eq}
use luna_for_mac.Path.{slash}
use luna_for_mac.Disk.{Diskv, IsLawful, IsReliable}
use luna_for_mac.Runtime.Sandbox.{Sandbox}
use luna_for_mac.Runtime.Records.{get_sandbox}
use luna_for_mac.Runtime.Records.Laws.{get_sandbox-Fits}
use luna_for_mac.Runtime.Types.{World, ok, sandbox_ready}
use luna_for_mac.Runtime.Create.Link.{link_mounts}
use luna_for_mac.Runtime.Create.Mounts.{link_mounts-Links}
use luna_for_mac.Runtime.Create.Created.{IsTyped}
use luna_for_mac.Runtime.Terminate.{Kill}
use luna_for_mac.Runtime.Terminate.Outcomes.{PlainWakes}
use luna_for_mac.Runtime.Pods.{remove_pod_sandbox}
use luna_for_mac.Runtime.Pods.Rounds.{IsAbsent}
use luna_for_mac.Runtime.Pods.Closed.{remove_pod_sandbox_removes}
use luna_for_mac.Runtime.Overlap.{Complete, pod_of, Creation, made, answered, advance}
use luna_for_mac.Runtime.Overlap.Calls.{
  cid_of, linked_world, listing, created, look_up, finish, created-get_container,
  created-get_sandbox,
}

module _ (D : Diskv) (L : IsLawful D) (R : IsReliable D) where
  -- A container that was not there is still not there, unless it is the new one.
  created-IsAbsent :
      (w : World D) (a : Complete) (pod : Sandbox) (ids : List String)
      → IsTyped a.surroundings a.config a.metadata
      → Lacks slash (cid_of a)
      → Lacks slash (pod_of a)
      → All (Lacks slash) ids
      → contains ids (cid_of a) ≡ false
      → All (IsAbsent D w.store) ids
      → All (IsAbsent D (created D a pod w).store) ids
  created-IsAbsent w a pod [] t p q plain out gone = tt
  created-IsAbsent w a pod (id ∷ ids) t p q plain out gone =
      let other : (id == cid_of a) ≡ false = ground arith in
      (
        created-get_container D L R w a pod id p q plain.0 t ∙ (elim (Bool-cases (cid_of a == id)) [
          | inl same ↦ cc (other, (eq_iff id (cid_of a)).1 (sym ((eq_iff (cid_of a) id).0 same)))
          | inr far ↦ rw far gone.0
        ]),
        created-IsAbsent w a pod ids t p q plain.1 (ground arith) gone.1,
      )

  -- RemovePodSandbox succeeds for a ready sandbox, stored under its id, while a call of
  -- CreateContainer for it is between its look-up and its writes. The call answers that it
  -- succeeded, and the removed sandbox is in the store again, as ready as it was read, with the new
  -- container at the end of its list and before it the containers that are gone. The request is
  -- complete and of typed values, its mounts can be linked, the new id is in no list, the ids hold
  -- no slash, the exit codes are of their Go type, and the disk is lawful and reliable.
  pub removed_pod_comes_back :
      (w : World D) (a : Complete) (pod : Sandbox) (kills : String → Kill)
      → ((id : String) → PlainWakes (kills id).wakes)
      → IsTyped a.surroundings a.config a.metadata
      → (link_mounts D a.surroundings.link_calls w a.config.mounts).0 ≡ true
      → get_sandbox D w.store pod.id ≡ some pod
      → pod_of a ≡ pod.id
      → int_eq pod.state sandbox_ready ≡ true
      → Lacks slash (cid_of a)
      → Lacks slash pod.id
      → All (Lacks slash) pod.containers
      → contains pod.containers (cid_of a) ≡ false
      → (remove_pod_sandbox D (advance D w (made a)).1 pod.id kills).0 ≡ ok tt
      → let (call, w1) = advance D w (made a) in
        let v = (remove_pod_sandbox D w1 pod.id kills).1 in
        let (call', u) = advance D v call in
        (get_sandbox D v.store pod.id ≡ none)
        × (call' ≡ answered (ok (cid_of a)))
        × (get_sandbox D u.store pod.id ≡ some (listing D a pod))
        × All (IsAbsent D u.store) pod.containers
  removed_pod_comes_back w a pod kills plain_kills t linked found own ready plain p plain_ids out
        fine =
      let w1 = linked_world D w a in
      let same = (link_mounts-Links D a.surroundings.link_calls w a.config.mounts).same_store in
      let v = (remove_pod_sandbox D w1 pod.id kills).1 in
      let q = subst (Lacks slash) (sym own) p in
      let found1 = ap (λ s. get_sandbox D s pod.id) same ∙ found in
      let first = look_up D w a pod linked (ap (get_sandbox D w.store) own ∙ found) in
      let gone = remove_pod_sandbox_removes D L R kills plain_kills w1 pod p plain_ids found1 (
        sym (ap (λ (r : Creation × World D). (remove_pod_sandbox D r.1 pod.id kills).0) first)
        ∙ fine) in
      rw (first, finish D v a pod ready)
        (
          gone.0,
          refl,
          created-get_sandbox D L R v a pod pod.id plain q p
                (get_sandbox-Fits D w.store pod.id pod found)
              ∙ ap (λ x. if x then some (listing D a pod) else get_sandbox D v.store pod.id)
                  ((eq_iff (pod_of a) pod.id).1 own),
          created-IsAbsent v a pod pod.containers t plain q plain_ids out gone.1,
        )
