-- ===== src/Runtime/Pods/Spared.antt =====
-- What StopPodSandbox and RemovePodSandbox leave alone.
use luna_for_mac.Base.{
  String, Bool, true, false, ◌≡◌, ap, ◌∙◌, Option, none, some, List, [], ◌∷◌, ◌==◌, if◌then◌else◌,
  arith, Lacks, All, contains, inl, inr,
}
use luna_for_mac.Path.{slash}
use luna_for_mac.Disk.{Diskv, IsLawful, IsReliable}
use luna_for_mac.Runtime.Container.{Container}
use luna_for_mac.Runtime.Sandbox.{Sandbox}
use luna_for_mac.Runtime.Types.{World, Outcome, ok, err, waiting}
use luna_for_mac.Runtime.Records.{get_container, get_sandbox}
use luna_for_mac.Runtime.Records.Laws.{
  get_container-delete_container, get_container-put_sandbox, get_container-delete_sandbox,
}
use luna_for_mac.Runtime.Terminate.{Kill, terminate_container}
use luna_for_mac.Runtime.Terminate.Outcomes.{PlainWakes}
use luna_for_mac.Runtime.Terminate.Stored.{IsStored, terminate_container-IsStored}
use luna_for_mac.Runtime.Pods.{
  closed, close_container, timeout_of, put_list, close_all, terminate_sandbox_containers,
  remove_pod_sandbox, removed_after,
}
use luna_for_mac.Runtime.Pods.Rounds.{emptied}
use luna_for_mac.Runtime.Pods.Closed.{Outcome-cases, close_all-next, close_all-stopped}

module _ (D : Diskv) (L : IsLawful D) (R : IsReliable D) (k : String)
    (plain_k : Lacks slash k) where
  closed-IsStored :
      (id : String) (r : Outcome (Unit {0}) × World D)
      → Lacks slash id
      → (id == k) ≡ false
      → IsStored D k r.1.store
      → IsStored D k (closed D id r).1.store
  unfolding closed
  closed-IsStored id (ok u, w) plain other (a, stored) = (
    a,
    get_container-delete_container D L R w.store id k plain plain_k
        ∙ ap (λ b. if b then none else get_container D w.store k) other
        ∙ stored,
  )
  closed-IsStored id (err e, w) plain other h = h
  closed-IsStored id (waiting, w) plain other h = h

  close_container-IsStored :
      (force : Bool) (w : World D) (id : String) (kill : Kill) (o : Option Container)
      → Lacks slash id
      → (id == k) ≡ false
      → PlainWakes kill.wakes
      → IsStored D k w.store
      → IsStored D k (close_container D force w id kill o).1.store
  unfolding close_container
  close_container-IsStored force w id kill none plain other wakes h = h
  close_container-IsStored force w id kill (some c) plain other wakes h =
      closed-IsStored id (terminate_container D (timeout_of force) w c kill) plain other
        (terminate_container-IsStored D L R k plain_k (timeout_of force) w c kill wakes h)

  put_sandbox-IsStored :
      (s : D.State) (id : String) (pod : Sandbox)
      → Lacks slash id
      → IsStored D k s
      → IsStored D k (luna_for_mac.Runtime.Records.put_sandbox D s id pod)
  put_sandbox-IsStored s id pod plain (a, stored) =
      (a, get_container-put_sandbox D L R s id k plain plain_k pod ∙ stored)

  module _ (kills : String → Kill) (plain_kills : (id : String) → PlainWakes (kills id).wakes) where
    close_all-IsStored :
        (force : Bool) (w : World D) (pod : Sandbox) (ids : List String)
        → Lacks slash pod.id
        → All (Lacks slash) ids
        → contains ids k ≡ false
        → IsStored D k w.store
        → IsStored D k (close_all D force w pod ids kills).1.store
    close_all-IsStored force w pod [] p plain out h =
        unfold close_all in put_sandbox-IsStored w.store pod.id (emptied pod) p h
    close_all-IsStored force w pod (id ∷ ids) p plain out h =
        let r = close_container D force w id (kills id) (get_container D w.store id) in
        let h1 =
          close_container-IsStored force w id (kills id) (get_container D w.store id) plain.0
            (ground arith) (plain_kills id) h in
        elim (Outcome-cases r.0) [
          | inl e ↦ rw (close_all-next D L R kills plain_kills force w pod id ids e) (
              close_all-IsStored force (put_list D r.1 pod ids) pod ids p plain.1 (ground arith)
                (put_sandbox-IsStored r.1.store pod.id (record pod { containers = ids }) p h1))
          | inr (_, e) ↦ rw (close_all-stopped D L R kills plain_kills force w pod id ids e) h1
        ]

    removed_after-IsStored :
        (id : String) (r : Outcome (Unit {0}) × World D)
        → Lacks slash id
        → IsStored D k r.1.store
        → IsStored D k (removed_after D id r).1.store
    unfolding removed_after
    removed_after-IsStored id (ok u, w) plain (a, stored) =
        (a, get_container-delete_sandbox D L R w.store id k plain plain_k ∙ stored)
    removed_after-IsStored id (err e, w) plain h = h
    removed_after-IsStored id (waiting, w) plain h = h

    -- RemovePodSandbox of a sandbox that is stored under its id removes no container that the
    -- sandbox does not list, whatever it answers: a container that was stored stays so. The disk is
    -- lawful and reliable, the ids hold no slash, and the exit codes are of their Go type.
    pub remove_pod_sandbox_spares :
        (w : World D) (pod : Sandbox) (c : Container)
        → Lacks slash pod.id
        → All (Lacks slash) pod.containers
        → get_sandbox D w.store pod.id ≡ some pod
        → contains pod.containers k ≡ false
        → get_container D w.store k ≡ some c
        → IsStored D k (remove_pod_sandbox D w pod.id kills).1.store
    unfolding remove_pod_sandbox terminate_sandbox_containers
    remove_pod_sandbox_spares w pod c p plain found out stored =
        rw (found, remove_pod_sandbox)
          (removed_after-IsStored pod.id (close_all D true w pod pod.containers kills) p
            (close_all-IsStored true w pod pod.containers p plain out (c, stored)))
