-- ===== src/Runtime/Service/Linked/Closing.antt =====
-- StopPodSandbox and RemovePodSandbox keep stored containers in the lists of their sandboxes.
use mathlib.Core.Option.{some-injective}
use luna_for_mac.Base.{
  String, true, ◌≡◌, refl, sym, ap, subst, ◌∙◌, Option, none, some, List, [], ◌∷◌, ◌==◌, arith,
  Lacks, All, Distinct, contains, Bool-cases, Option-cases, inl, inr, eq_iff, Bool, false,
}
use luna_for_mac.Path.{slash}
use luna_for_mac.Disk.{Diskv, IsLawful, IsReliable}
use luna_for_mac.Runtime.Container.{Container}
use luna_for_mac.Runtime.Sandbox
use luna_for_mac.Runtime.Sandbox.{Sandbox}
use luna_for_mac.Runtime.Records.{get_container, get_sandbox}
use luna_for_mac.Runtime.Records.Laws.{get_sandbox-Fits}
use luna_for_mac.Runtime.Types.{World, Outcome, ok, err, waiting}
use luna_for_mac.Runtime.Terminate.{Kill, terminate_container}
use luna_for_mac.Runtime.Terminate.Outcomes.{PlainWakes}
use luna_for_mac.Runtime.Pods.Rounds.{
  close_container-Round, put_sandbox-found, list-Fits, emptied, emptied-Fits, Closes,
}
use luna_for_mac.Runtime.Pods
use luna_for_mac.Runtime.Pods.{
  timeout_of, closed, close_container, put_list, close_all, terminate_sandbox_containers,
  stop_pod_sandbox, remove_pod_sandbox,
}
use luna_for_mac.Runtime.Pods.Closed.{
  Outcome-cases, close_all-stopped, close_all-next, close_all-Closes,
}
use luna_for_mac.Runtime.Service.{IsSoundPod}
use luna_for_mac.Runtime.Service.Closing.{
  shortened-IsConsistent, close_container-IsConsistent, terminate_sandbox_containers-IsConsistent,
}
use luna_for_mac.Runtime.Service.Linked.{
  IsLinked, IsLinked-spare, put_sandbox-IsLinked, delete_container-IsLinked,
  delete_sandbox-IsLinked,
}
use luna_for_mac.Runtime.Service.Linked.Ending.{IsKept, terminate_container-IsKept}

module _ (D : Diskv) (L : IsLawful D) (R : IsReliable D) (spared : List String) where
  closed-IsLinked :
      (id : String) (r : Outcome (Unit {0}) × World D)
      → Lacks slash id
      → IsKept D L R spared r.1.store
      → IsLinked D spared (closed D id r).1.store
  unfolding closed
  closed-IsLinked id (ok u, w) plain (v, l) =
      delete_container-IsLinked D L R w.store v id plain spared
        (IsLinked-spare D spared id w.store l)
  closed-IsLinked id (err e, w) plain (v, l) = l
  closed-IsLinked id (waiting, w) plain (v, l) = l

  close_container-IsLinked :
      (force : Bool) (w : World D) (id : String) (k : Kill) (o : Option Container)
      → Lacks slash id
      → PlainWakes k.wakes
      → IsKept D L R spared w.store
      → IsLinked D spared (close_container D force w id k o).1.store
  unfolding close_container
  close_container-IsLinked force w id k none plain h (v, l) = l
  close_container-IsLinked force w id k (some c) plain h kept =
      closed-IsLinked id (terminate_container D (timeout_of force) w c k) plain
        (terminate_container-IsKept D L R spared (timeout_of force) w c k h kept)

  -- A shorter list of one sandbox, where the containers that it lost are not in the store.
  relisted-IsLinked :
      (w : World D) (pod old new : Sandbox)
      → Lacks slash pod.id
      → Sandbox.Fits new
      → get_sandbox D w.store pod.id ≡ some old
      → ((j : String) (c : Container)
          → get_container D w.store j ≡ some c
          → contains old.containers j ≡ true
          → contains new.containers j ≡ true)
      → IsKept D L R spared w.store
      → IsLinked D spared (luna_for_mac.Runtime.Records.put_sandbox D w.store pod.id new)
  relisted-IsLinked w pod old new p fits found still (v, l) =
      put_sandbox-IsLinked D L R w.store v pod.id p spared new fits
        (λ j a q out stored own.
          let (listing, here, lists) = l.home j a q out stored in
          let one : some listing ≡ some old = sym here ∙ ap (get_sandbox D w.store) own ∙ found in
          still j a stored (
            subst (λ (d : Sandbox). contains d.containers j ≡ true) (some-injective _ _ one) lists))
        (λ j a q out stored other. l.home j a q out stored)

  module _ (kills : String → Kill) (plain_kills : (id : String) → PlainWakes (kills id).wakes) where
    close_all-IsLinked :
        (force : Bool) (w : World D) (pod : Sandbox) (ids : List String)
        → Lacks slash pod.id
        → IsSoundPod pod.id pod
        → Sandbox.Fits pod
        → All (Lacks slash) ids
        → Distinct ids
        → get_sandbox D w.store pod.id ≡ some (record pod { containers = ids })
        → IsKept D L R spared w.store
        → IsLinked D spared (close_all D force w pod ids kills).1.store
    close_all-IsLinked force w pod [] p sound fits plain distinct found kept =
        unfold close_all in
        relisted-IsLinked w pod (record pod { containers = [] }) (emptied pod) p
          (emptied-Fits pod fits) found (λ j c stored lists. lists) kept
    close_all-IsLinked force w pod (id ∷ ids) p sound fits plain distinct found (v, l) =
        let r = close_container D force w id (kills id) (get_container D w.store id) in
        let v1 =
          close_container-IsConsistent D L R force w id (kills id) (get_container D w.store id)
            plain.0 (plain_kills id) v in
        let l1 =
          close_container-IsLinked force w id (kills id) (get_container D w.store id) plain.0
            (plain_kills id) (v, l) in
        let round =
          close_container-Round D L R force w id (kills id) (get_container D w.store id) plain.0
            (plain_kills id) refl in
        let found1 = round.keeps.sandboxes pod.id p ∙ found in
        let shorter : Sandbox = record pod { containers = ids } in
        elim (Outcome-cases r.0) [
          | inl e ↦ rw (close_all-next D L R kills plain_kills force w pod id ids e) (
              close_all-IsLinked force (put_list D r.1 pod ids) pod ids p sound fits plain.1
                distinct.1
                (put_sandbox-found D L R r.1.store pod.id shorter p (list-Fits pod ids fits))
                (
                  shortened-IsConsistent D L R r.1 pod id ids p sound fits plain distinct found1 v1,
                  relisted-IsLinked r.1 pod (record pod { containers = id ∷ ids }) shorter p
                      (list-Fits pod ids fits) found1
                      (λ j c stored lists. elim (Bool-cases (id == j)) [
                        | inl same ↦
                            let here = (eq_iff id j).0 same in
                            cc (stored, sym (ap (get_container D r.1.store) here) ∙ round.gone e)
                        | inr other ↦ ground arith
                      ])
                      (v1, l1),
                ))
          | inr (_, e) ↦ rw (close_all-stopped D L R kills plain_kills force w pod id ids e) l1
        ]

    terminate_sandbox_containers-IsLinked :
        (force : Bool) (w : World D) (k : String) (pod : Sandbox)
        → Lacks slash k
        → get_sandbox D w.store k ≡ some pod
        → IsKept D L R spared w.store
        → IsLinked D spared (terminate_sandbox_containers D force w pod kills).1.store
    unfolding terminate_sandbox_containers
    terminate_sandbox_containers-IsLinked force w k pod p e (v, l) =
        let sound = v.sandboxes k p pod e in
        close_all-IsLinked force w pod pod.containers (subst (Lacks slash) (sym sound.own_id) p)
          (subst (λ i. IsSoundPod i pod) (sym sound.own_id) sound)
          (get_sandbox-Fits D w.store k pod e) sound.plain sound.distinct
          (subst (λ i. get_sandbox D w.store i ≡ some pod) (sym sound.own_id) e) (v, l)

    pub stop_pod_sandbox-IsLinked :
        (w : World D) (k : String)
        → Lacks slash k
        → IsKept D L R spared w.store
        → IsLinked D spared (stop_pod_sandbox D w k kills).1.store
    unfolding stop_pod_sandbox
    stop_pod_sandbox-IsLinked w k p (v, l) = elim (Option-cases (get_sandbox D w.store k)) [
      | inl f ↦ rw (f, stop_pod_sandbox) l
      | inr (pod, f) ↦
          rw (f, stop_pod_sandbox) (terminate_sandbox_containers-IsLinked false w k pod p f (v, l))
    ]

    removed_after-IsLinked :
        (k : String) (pod : Sandbox) (t : Outcome (Unit {0}) × World D)
        → Lacks slash k
        → pod.id ≡ k
        → Closes D L R pod pod.containers t
        → IsKept D L R spared t.1.store
        → IsLinked D spared (Pods.removed_after D k t).1.store
    unfolding Pods.removed_after
    removed_after-IsLinked k pod (ok tt, w) p own (inl (_, stored, _)) (v, l) =
        delete_sandbox-IsLinked D L R w.store v k p spared (emptied pod)
          (sym (ap (get_sandbox D w.store) own) ∙ stored) refl l
    removed_after-IsLinked k pod (ok tt, w) p own (inr (short, _)) (v, l) = absurd (short refl)
    removed_after-IsLinked k pod (err e, w) p own c (v, l) = l
    removed_after-IsLinked k pod (waiting, w) p own c (v, l) = l

    remove_found-IsLinked :
        (w : World D) (k : String) (pod : Sandbox)
        → Lacks slash k
        → get_sandbox D w.store k ≡ some pod
        → IsKept D L R spared w.store
        → IsLinked D spared
            (Pods.removed_after D k (terminate_sandbox_containers D true w pod kills)).1.store
    unfolding terminate_sandbox_containers
    remove_found-IsLinked w k pod p e (v, l) =
        let sound = v.sandboxes k p pod e in
        let own = sound.own_id in
        let q = subst (Lacks slash) (sym own) p in
        let found = ap (get_sandbox D w.store) own ∙ e in
        removed_after-IsLinked k pod (close_all D true w pod pod.containers kills) p own
          (close_all-Closes D L R kills plain_kills true w pod pod.containers q sound.plain
            (get_sandbox-Fits D w.store k pod e) found)
          (
            terminate_sandbox_containers-IsConsistent D L R kills plain_kills true w k pod p e v,
            terminate_sandbox_containers-IsLinked true w k pod p e (v, l),
          )

    pub remove_pod_sandbox-IsLinked :
        (w : World D) (k : String)
        → Lacks slash k
        → IsKept D L R spared w.store
        → IsLinked D spared (remove_pod_sandbox D w k kills).1.store
    unfolding remove_pod_sandbox
    remove_pod_sandbox-IsLinked w k p (v, l) = elim (Option-cases (get_sandbox D w.store k)) [
      | inl f ↦ rw (f, remove_pod_sandbox) l
      | inr (pod, f) ↦ rw (f, remove_pod_sandbox) (remove_found-IsLinked w k pod p f (v, l))
    ]
