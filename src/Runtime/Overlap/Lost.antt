-- ===== src/Runtime/Overlap/Lost.antt =====
-- Two calls of CreateContainer for one sandbox: one after the other, and overlapping.
use luna_for_mac.Base.{
  String, true, false, ◌≡◌, refl, ap, ◌∙◌, sym, subst, some, List, [], ◌∷◌, ◌==◌, if◌then◌else◌,
  arith, Lacks, All, All-append, contains, contains-append, eq_refl, eq_iff,
}
use luna_for_mac.Base.Int.{int_eq}
use luna_for_mac.Path.{slash}
use luna_for_mac.Disk.{Diskv, IsLawful, IsReliable}
use luna_for_mac.Runtime.Sandbox.{Sandbox}
use luna_for_mac.Runtime.Records.{get_container, get_sandbox}
use luna_for_mac.Runtime.Records.Laws.{get_sandbox-Fits}
use luna_for_mac.Runtime.Types.{World, ok, sandbox_ready}
use luna_for_mac.Runtime.Create.Link.{link_mounts}
use luna_for_mac.Runtime.Create.Mounts.{link_mounts-Links}
use luna_for_mac.Runtime.Create.Created.{IsTyped}
use luna_for_mac.Runtime.Terminate.{Kill}
use luna_for_mac.Runtime.Terminate.Outcomes.{PlainWakes}
use luna_for_mac.Runtime.Pods.{remove_pod_sandbox}
use luna_for_mac.Runtime.Terminate.Stored.{IsStored}
use luna_for_mac.Runtime.Pods.Spared.{remove_pod_sandbox_spares}
use luna_for_mac.Runtime.Overlap.{Complete, pod_of, made, answered, Turn, first, second, take_turns}
use luna_for_mac.Runtime.Overlap.Calls.{
  cid_of, linked_world, container_of, listing, created, look_up, finish, created-get_container,
  created-get_sandbox,
}

-- Both look up before either writes, and the first is the first to write.
abbrev pub both_at_once : List Turn
both_at_once = first ∷ second ∷ first ∷ second ∷ []

abbrev pub one_by_one : List Turn
one_by_one = first ∷ first ∷ second ∷ second ∷ []

module _ (D : Diskv) where
  -- Two requests that nothing but the other can disturb: typed, for the one ready sandbox, with
  -- mounts that can be linked and different new ids.
  pub record Pair (w : World D) (a b : Complete) (pod : Sandbox) : Type 0 where
    pub typed : IsTyped a.surroundings a.config a.metadata
    pub typed_too : IsTyped b.surroundings b.config b.metadata
    pub linked : (link_mounts D a.surroundings.link_calls w a.config.mounts).0 ≡ true
    pub linked_too :
        (v : World D) → (link_mounts D b.surroundings.link_calls v b.config.mounts).0 ≡ true
    pub found : get_sandbox D w.store (pod_of a) ≡ some pod
    pub same_pod : pod_of b ≡ pod_of a
    pub ready : int_eq pod.state sandbox_ready ≡ true
    pub plain : Lacks slash (cid_of a)
    pub plain_too : Lacks slash (cid_of b)
    pub plain_pod : Lacks slash (pod_of a)
    pub apart : (cid_of b == cid_of a) ≡ false
    pub unlisted : contains pod.containers (cid_of a) ≡ false

  module _ (w : World D) (a b : Complete) (pod : Sandbox) (p : Pair w a b pod) where
    -- The world after both calls overlapped.
    abbrev pub lost_world : World D
    lost_world = created D b pod (created D a pod (linked_world D (linked_world D w a) b))

    pub overlapping_turns :
        take_turns D w (made a) (made b) both_at_once
        ≡ ((answered (ok (cid_of a)), answered (ok (cid_of b))), lost_world)
    unfolding take_turns
    overlapping_turns =
        let w1 = linked_world D w a in
        let same = (link_mounts-Links D a.surroundings.link_calls w a.config.mounts).same_store in
        let found_too : get_sandbox D w1.store (pod_of b) ≡ some pod =
          ap (get_sandbox D w1.store) p.same_pod
          ∙ ap (λ s. get_sandbox D s (pod_of a)) same
          ∙ p.found in
        rw
          (
            look_up D w a pod p.linked p.found,
            look_up D w1 b pod (p.linked_too w1) found_too,
            finish D (linked_world D w1 b) a pod p.ready,
            finish D (created D a pod (linked_world D w1 b)) b pod p.ready,
          )
          refl

module _ (D : Diskv) (L : IsLawful D) (R : IsReliable D) (w : World D) (a b : Complete)
    (pod : Sandbox) (p : Pair D w a b pod) where
  -- The list that the second writes is the one that it read.
  listing-unlisted : contains (listing D b pod).containers (cid_of a) ≡ false
  listing-unlisted =
      let out = p.unlisted in
      let apart = p.apart in
      contains-append pod.containers (cid_of b ∷ []) (cid_of a) ∙ ground arith

  -- Two calls of CreateContainer with complete requests of typed values for one ready sandbox and
  -- with different new ids, of which both look up the sandbox before either writes. Both answer
  -- that they succeeded and both containers are stored, but the sandbox's list is the one that both
  -- read with the container of the call that wrote last at its end, and the other container is not
  -- in it. That container's id is not in the list that was read, the mounts can be linked, the ids
  -- hold no slash, and the disk is lawful and reliable.
  pub overlapping_creations_lose :
      let ((one, other), v) = take_turns D w (made a) (made b) both_at_once in
      (one ≡ answered (ok (cid_of a)))
      × (other ≡ answered (ok (cid_of b)))
      × (get_container D v.store (cid_of a) ≡ some (container_of D a pod))
      × (get_container D v.store (cid_of b) ≡ some (container_of D b pod))
      × (get_sandbox D v.store (pod_of a) ≡ some (listing D b pod))
      × (contains (listing D b pod).containers (cid_of a) ≡ false)
  overlapping_creations_lose =
      let w2 = linked_world D (linked_world D w a) b in
      let v = created D a pod w2 in
      let q = subst (Lacks slash) (sym p.same_pod) p.plain_pod in
      let fits = get_sandbox-Fits D w.store (pod_of a) pod p.found in
      rw (overlapping_turns D w a b pod p) (
        refl,
        refl,
        created-get_container D L R v b pod (cid_of a) p.plain_too q p.plain p.typed_too
            ∙ ap
                (λ x. if x then some (container_of D b pod) else get_container D v.store (cid_of a))
                p.apart
            ∙ created-get_container D L R w2 a pod (cid_of a) p.plain p.plain_pod p.plain p.typed
            ∙ rw (eq_refl (cid_of a)) refl,
        created-get_container D L R v b pod (cid_of b) p.plain_too q p.plain_too p.typed_too
            ∙ rw (eq_refl (cid_of b)) refl,
        created-get_sandbox D L R v b pod (pod_of a) p.plain_too q p.plain_pod fits
            ∙ ap (λ x. if x then some (listing D b pod) else get_sandbox D v.store (pod_of a))
                ((eq_iff (pod_of b) (pod_of a)).1 p.same_pod),
        listing-unlisted,
      )

  -- After two such calls of CreateContainer for one ready sandbox, of which both looked up the
  -- sandbox before either wrote, RemovePodSandbox of the sandbox, whatever it answers, leaves the
  -- container of the call that wrote first in the store. The requests are complete and of typed
  -- values, the new ids are different, the first of them is not in the list that was read, the
  -- mounts can be linked, the sandbox is stored under its own id, the ids hold no slash, the exit
  -- codes are of their Go type, and the disk is lawful and reliable.
  pub lost_container_stays :
      (kills : String → Kill)
      → ((id : String) → PlainWakes (kills id).wakes)
      → pod.id ≡ pod_of a
      → All (Lacks slash) pod.containers
      → let (_, v) = take_turns D w (made a) (made b) both_at_once in
        IsStored D (cid_of a) (remove_pod_sandbox D v pod.id kills).1.store
  lost_container_stays kills plain_kills own plain =
      let (_, _, stored, _, listed, out) = overlapping_creations_lose in
      let v = (take_turns D w (made a) (made b) both_at_once).1 in
      remove_pod_sandbox_spares D L R (cid_of a) p.plain kills plain_kills v (listing D b pod)
        (container_of D a pod) (subst (Lacks slash) (sym own) p.plain_pod)
        (All-append (Lacks slash) pod.containers (cid_of b ∷ []) plain (p.plain_too, tt))
        (ap (get_sandbox D v.store) own ∙ listed) out stored

  -- The same two calls one after the other both succeed, and the sandbox's list ends with both
  -- containers, in the order of the calls. The mounts can be linked, the ids hold no slash, and the
  -- disk is lawful and reliable.
  pub creations_one_by_one_list :
      let ((one, other), v) = take_turns D w (made a) (made b) one_by_one in
      (one ≡ answered (ok (cid_of a)))
      × (other ≡ answered (ok (cid_of b)))
      × (get_sandbox D v.store (pod_of a) ≡ some (listing D b (listing D a pod)))
  unfolding take_turns
  creations_one_by_one_list =
      let w1 = linked_world D w a in
      let v1 = created D a pod w1 in
      let v2 = linked_world D v1 b in
      let q = subst (Lacks slash) (sym p.same_pod) p.plain_pod in
      let fits = get_sandbox-Fits D w.store (pod_of a) pod p.found in
      let first_listed : get_sandbox D v1.store (pod_of b) ≡ some (listing D a pod) =
        ap (get_sandbox D v1.store) p.same_pod
        ∙ created-get_sandbox D L R w1 a pod (pod_of a) p.plain p.plain_pod p.plain_pod fits
        ∙ rw (eq_refl (pod_of a)) refl in
      rw
        (
          look_up D w a pod p.linked p.found,
          finish D w1 a pod p.ready,
          look_up D v1 b (listing D a pod) (p.linked_too v1) first_listed,
          finish D v2 b (listing D a pod) p.ready,
        )
        (
          refl,
          refl,
          created-get_sandbox D L R v2 b (listing D a pod) (pod_of a) p.plain_too q p.plain_pod
                (get_sandbox-Fits D v1.store (pod_of b) (listing D a pod) first_listed)
              ∙ ap
                  (λ x.
                    if x
                    then some (listing D b (listing D a pod))
                    else get_sandbox D v2.store (pod_of a))
                  ((eq_iff (pod_of b) (pod_of a)).1 p.same_pod),
        )
