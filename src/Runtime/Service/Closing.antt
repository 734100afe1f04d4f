-- ===== src/Runtime/Service/Closing.antt =====
-- The calls that stop and remove a sandbox keep the store consistent.
use luna_for_mac.Base.{
  String, ◌≡◌, refl, ◌∙◌, arith, subst, sym, Option, none, some, List, [], ◌∷◌, Lacks, All,
  Distinct, Option-cases, inl, inr, Bool, true, false,
}
use luna_for_mac.Path.{slash}
use luna_for_mac.Disk.{Diskv, IsLawful, IsReliable}
use luna_for_mac.Runtime.Container.{Container}
use luna_for_mac.Runtime.Sandbox
use luna_for_mac.Runtime.Sandbox.{Sandbox}
use luna_for_mac.Runtime.Records.{get_container, get_sandbox}
use luna_for_mac.Runtime.Records.Laws.{get_sandbox-Fits}
use luna_for_mac.Runtime.Types.{World, Outcome, ok, err, waiting}
use luna_for_mac.Runtime.Terminate.{Kill, terminate_container}
use luna_for_mac.Runtime.Terminate.Outcomes.{PlainWakes}
use luna_for_mac.Runtime.Pods.Rounds.{
  close_container-Round, put_sandbox-found, list-Fits, emptied, emptied-Fits,
}
use luna_for_mac.Runtime.Pods
use luna_for_mac.Runtime.Pods.{
  timeout_of, closed, close_container, put_list, close_all, terminate_sandbox_containers,
  stop_pod_sandbox, remove_pod_sandbox,
}
use luna_for_mac.Runtime.Pods.Closed.{Outcome-cases, close_all-stopped, close_all-next}
use luna_for_mac.Runtime.Service.{IsSoundPod, IsConsistent}
use luna_for_mac.Runtime.Service.Store.{
  put_sandbox-IsConsistent, delete_container-IsConsistent, delete_sandbox-IsConsistent,
}
use luna_for_mac.Runtime.Service.Ending.{
  listing-IsSoundPod, emptied-IsSoundPod, terminate_container-IsConsistent,
}

module _ (D : Diskv) (L : IsLawful D) (R : IsReliable D) where
  closed-IsConsistent :
      (id : String) (r : Outcome (Unit {0}) × World D)
      → Lacks slash id
      → IsConsistent D r.1.store
      → IsConsistent D (closed D id r).1.store
  unfolding closed
  closed-IsConsistent id (ok u, w) plain v = delete_container-IsConsistent D L R w.store v id plain
  closed-IsConsistent id (err e, w) plain v = v
  closed-IsConsistent id (waiting, w) plain v = v

  pub close_container-IsConsistent :
      (force : Bool) (w : World D) (id : String) (k : Kill) (o : Option Container)
      → Lacks slash id
      → PlainWakes k.wakes
      → IsConsistent D w.store
      → IsConsistent D (close_container D force w id k o).1.store
  unfolding close_container
  close_container-IsConsistent force w id k none plain h v = v
  close_container-IsConsistent force w id k (some c) plain h v =
      closed-IsConsistent id (terminate_container D (timeout_of force) w c k) plain
        (terminate_container-IsConsistent D L R (timeout_of force) w c k h v)

  -- The list of a sandbox without its first container.
  pub shortened-IsConsistent :
      (w : World D) (pod : Sandbox) (id : String) (ids : List String)
      → Lacks slash pod.id
      → IsSoundPod pod.id pod
      → Sandbox.Fits pod
      → All (Lacks slash) (id ∷ ids)
      → Distinct (id ∷ ids)
      → get_sandbox D w.store pod.id ≡ some (record pod { containers = id ∷ ids })
      → IsConsistent D w.store
      → IsConsistent D (put_list D w pod ids).store
  shortened-IsConsistent w pod id ids p sound fits plain distinct found v =
      put_sandbox-IsConsistent D L R w.store v pod.id p (record pod { containers = ids })
        (list-Fits pod ids fits) (listing-IsSoundPod pod.id pod ids sound plain.1 distinct.1)
        (λ j a q g l.
          v.belongs j pod.id q p a (record pod { containers = id ∷ ids }) g found (ground arith))

  module _ (kills : String → Kill) (plain_kills : (id : String) → PlainWakes (kills id).wakes) where
    pub close_all-IsConsistent :
        (force : Bool) (w : World D) (pod : Sandbox) (ids : List String)
        → Lacks slash pod.id
        → IsSoundPod pod.id pod
        → Sandbox.Fits pod
        → All (Lacks slash) ids
        → Distinct ids
        → get_sandbox D w.store pod.id ≡ some (record pod { containers = ids })
        → IsConsistent D w.store
        → IsConsistent D (close_all D force w pod ids kills).1.store
    close_all-IsConsistent force w pod [] p sound fits plain distinct found v =
        unfold close_all in
        put_sandbox-IsConsistent D L R w.store v pod.id p (emptied pod) (emptied-Fits pod fits)
          (emptied-IsSoundPod pod.id pod sound) (λ j a q g l. cc)
    close_all-IsConsistent force w pod (id ∷ ids) p sound fits plain distinct found v =
        let r = close_container D force w id (kills id) (get_container D w.store id) in
        let v1 =
          close_container-IsConsistent force w id (kills id) (get_container D w.store id) plain.0
            (plain_kills id) v in
        let kept =
          (close_container-Round D L R force w id (kills id) (get_container D w.store id) plain.0
            (plain_kills id) refl).keeps in
        let found1 = kept.sandboxes pod.id p ∙ found in
        let v2 = shortened-IsConsistent r.1 pod id ids p sound fits plain distinct found1 v1 in
        elim (Outcome-cases r.0) [
          | inl e ↦ rw (close_all-next D L R kills plain_kills force w pod id ids e) (
              close_all-IsConsistent force (put_list D r.1 pod ids) pod ids p sound fits plain.1
                distinct.1
                (put_sandbox-found D L R r.1.store pod.id (record pod { containers = ids }) p
                  (list-Fits pod ids fits))
                v2)
          | inr (_, e) ↦ rw (close_all-stopped D L R kills plain_kills force w pod id ids e) v1
        ]

    pub terminate_sandbox_containers-IsConsistent :
        (force : Bool) (w : World D) (k : String) (pod : Sandbox)
        → Lacks slash k
        → get_sandbox D w.store k ≡ some pod
        → IsConsistent D w.store
        → IsConsistent D (terminate_sandbox_containers D force w pod kills).1.store
    unfolding terminate_sandbox_containers
    terminate_sandbox_containers-IsConsistent force w k pod p e v =
        let sound = v.sandboxes k p pod e in
        close_all-IsConsistent force w pod pod.containers (subst (Lacks slash) (sym sound.own_id) p)
          (subst (λ i. IsSoundPod i pod) (sym sound.own_id) sound)
          (get_sandbox-Fits D w.store k pod e) sound.plain sound.distinct
          (subst (λ i. get_sandbox D w.store i ≡ some pod) (sym sound.own_id) e) v

    pub stop_pod_sandbox-IsConsistent :
        (w : World D) (k : String)
        → Lacks slash k
        → IsConsistent D w.store
        → IsConsistent D (stop_pod_sandbox D w k kills).1.store
    unfolding stop_pod_sandbox
    stop_pod_sandbox-IsConsistent w k p v = elim (Option-cases (get_sandbox D w.store k)) [
      | inl f ↦ rw (f, stop_pod_sandbox) v
      | inr (pod, f) ↦
          rw (f, stop_pod_sandbox) (terminate_sandbox_containers-IsConsistent false w k pod p f v)
    ]

    removed_after-IsConsistent :
        (k : String) (r : Outcome (Unit {0}) × World D)
        → Lacks slash k
        → IsConsistent D r.1.store
        → IsConsistent D (Pods.removed_after D k r).1.store
    unfolding Pods.removed_after
    removed_after-IsConsistent k (ok u, w) p v = delete_sandbox-IsConsistent D L R w.store v k p
    removed_after-IsConsistent k (err e, w) p v = v
    removed_after-IsConsistent k (waiting, w) p v = v

    pub remove_pod_sandbox-IsConsistent :
        (w : World D) (k : String)
        → Lacks slash k
        → IsConsistent D w.store
        → IsConsistent D (remove_pod_sandbox D w k kills).1.store
    unfolding remove_pod_sandbox
    remove_pod_sandbox-IsConsistent w k p v = elim (Option-cases (get_sandbox D w.store k)) [
      | inl f ↦ rw (f, remove_pod_sandbox) v
      | inr (pod, f) ↦
          rw (f, remove_pod_sandbox)
            (removed_after-IsConsistent k (terminate_sandbox_containers D true w pod kills) p
              (terminate_sandbox_containers-IsConsistent true w k pod p f v))
    ]
