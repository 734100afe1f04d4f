-- ===== src/Runtime/Service/Shrinks/Ending.antt =====
-- The calls that stop or remove, and the exits of processes, let no container appear and no list of a
-- sandbox grow.
use luna_for_mac.Base.{
  String, ◌≡◌, refl, sym, ap, subst, ◌∙◌, Option, none, some, List, [], ◌∷◌, arith, Lacks, All,
  contains, Bool-cases, Option-cases, inl, inr, Bool, true, false,
}
use luna_for_mac.Base.Int.{int_eq, ℤ, pos}
use luna_for_mac.Path.{slash}
use luna_for_mac.Disk.{Diskv, IsLawful, IsReliable}
use luna_for_mac.Runtime.Container.{Container}
use luna_for_mac.Runtime.Sandbox
use luna_for_mac.Runtime.Sandbox.{Sandbox}
use luna_for_mac.Runtime.Records.{get_container, get_sandbox}
use luna_for_mac.Runtime.Records.Laws.{get_container-Fits, get_sandbox-Fits}
use luna_for_mac.Runtime.Types.{World, Outcome, ok, err, waiting}
use luna_for_mac.Runtime.Terminate.{Exit, Kill, track_exit, terminate_container}
use luna_for_mac.Runtime.Terminate.Outcomes.{
  IsPlainExit, PlainWakes, exited, exited-Fits, terminate_container_keeps,
}
use luna_for_mac.Runtime.Stop.{remove_first, detach, stop_container, remove_container}
use luna_for_mac.Runtime.Stop
use luna_for_mac.Runtime.Pods
use luna_for_mac.Runtime.Pods.{
  timeout_of, PodConfig, new_sandbox, run_pod_sandbox, closed, close_container, put_list, close_all,
  terminate_sandbox_containers, stop_pod_sandbox, remove_pod_sandbox,
}
use luna_for_mac.Runtime.Pods.Rounds.{
  close_container-Round, put_sandbox-found, list-Fits, emptied, emptied-Fits,
}
use luna_for_mac.Runtime.Pods.Closed.{Outcome-cases, close_all-stopped, close_all-next}
use luna_for_mac.Runtime.Service.{IsConsistent}
use luna_for_mac.Runtime.Service.Ending.{remove_first-contains}
use luna_for_mac.Runtime.Service.Shrinks.{
  Shrinks, Shrinks-refl, Shrinks-trans, put_container-Shrinks, delete_container-Shrinks,
  put_sandbox-Shrinks, delete_sandbox-Shrinks,
}

module _ (D : Diskv) (L : IsLawful D) (R : IsReliable D) where
  pub track_exit-Shrinks : (s : D.State) (e : Exit) → IsPlainExit e → Shrinks D s (track_exit D s e)
  unfolding track_exit
  track_exit-Shrinks s e h = elim (Option-cases (get_container D s e.container_id)) [
    | inl f ↦ rw (f, track_exit) (Shrinks-refl D s)
    | inr (c, f) ↦ elim (Bool-cases (int_eq c.pid e.pid)) [
      | inr g ↦ rw (f, track_exit, g) (Shrinks-refl D s)
      | inl g ↦
          rw (f, track_exit, g)
            (put_container-Shrinks D L R s e.container_id h.plain c (exited e c)
              (exited-Fits e c h.typed (get_container-Fits D s e.container_id c f)) f refl)
    ]
  ]

  terminate_container-Shrinks :
      (s : D.State) (timeout : ℤ) (w : World D) (c : Container) (k : Kill)
      → PlainWakes k.wakes
      → Shrinks D s w.store
      → Shrinks D s (terminate_container D timeout w c k).1.store
  terminate_container-Shrinks s =
      terminate_container_keeps D (Shrinks D s)
        (λ t e plain h. Shrinks-trans D h (track_exit-Shrinks t e plain))

  pub stop_container-Shrinks :
      (timeout : ℤ) (w : World D) (cid : String) (k : Kill)
      → PlainWakes k.wakes
      → Shrinks D w.store (stop_container D timeout w cid k).1.store
  unfolding stop_container
  stop_container-Shrinks timeout w cid k h = elim (Option-cases (get_container D w.store cid)) [
    | inl f ↦ rw (f, stop_container) (Shrinks-refl D w.store)
    | inr (c, f) ↦
        rw (f, stop_container)
          (terminate_container-Shrinks w.store timeout w c k h (Shrinks-refl D w.store))
  ]

  detach-Shrinks :
      (s : D.State) (pod_id cid : String) (o : Option Sandbox)
      → Lacks slash pod_id
      → get_sandbox D s pod_id ≡ o
      → Shrinks D s (detach D s pod_id cid o)
  unfolding detach
  detach-Shrinks s pod_id cid none plain e = Shrinks-refl D s
  detach-Shrinks s pod_id cid (some p) plain e = elim (Bool-cases (contains p.containers cid)) [
    | inr f ↦ rw f (Shrinks-refl D s)
    | inl f ↦ rw f (
        put_sandbox-Shrinks D L R s pod_id plain
          (record p { containers = remove_first cid p.containers })
          (list-Fits p _ (get_sandbox-Fits D s pod_id p e))
          (λ j l. (p, e, remove_first-contains cid j p.containers l)))
  ]

  removed_after-Shrinks :
      (s : D.State) (cid : String) (r : Outcome (Unit {0}) × World D)
      → Lacks slash cid
      → Shrinks D s r.1.store
      → Shrinks D s (Stop.removed_after D cid r).1.store
  unfolding Stop.removed_after
  removed_after-Shrinks s cid (ok u, w) plain h =
      Shrinks-trans D h (delete_container-Shrinks D L R w.store cid plain)
  removed_after-Shrinks s cid (err e, w) plain h = h
  removed_after-Shrinks s cid (waiting, w) plain h = h

  remove_found-Shrinks :
      (w : World D) (cid : String) (k : Kill) (o : Option Container)
      → Lacks slash cid
      → PlainWakes k.wakes
      → get_container D w.store cid ≡ o
      → IsConsistent D w.store
      → Shrinks D w.store (Stop.remove_found D w cid k o).1.store
  unfolding Stop.remove_found
  remove_found-Shrinks w cid k none plain h e v = Shrinks-refl D w.store
  remove_found-Shrinks w cid k (some c) plain h e v =
      let pod = get_sandbox D w.store c.pod_id in
      let w' : World D = record w { store = detach D w.store c.pod_id cid pod } in
      removed_after-Shrinks w.store cid (terminate_container D (pos 0) w' c k) plain (
        terminate_container-Shrinks w.store (pos 0) w' c k h
          (detach-Shrinks w.store c.pod_id cid pod (v.containers cid plain c e).plain_pod refl))

  pub remove_container-Shrinks :
      (w : World D) (cid : String) (k : Kill)
      → Lacks slash cid
      → PlainWakes k.wakes
      → IsConsistent D w.store
      → Shrinks D w.store (remove_container D w cid k).1.store
  unfolding remove_container
  remove_container-Shrinks w cid k plain h =
      remove_found-Shrinks w cid k (get_container D w.store cid) plain h refl

  closed-Shrinks :
      (s : D.State) (id : String) (r : Outcome (Unit {0}) × World D)
      → Lacks slash id
      → Shrinks D s r.1.store
      → Shrinks D s (closed D id r).1.store
  unfolding closed
  closed-Shrinks s id (ok u, w) plain h =
      Shrinks-trans D h (delete_container-Shrinks D L R w.store id plain)
  closed-Shrinks s id (err e, w) plain h = h
  closed-Shrinks s id (waiting, w) plain h = h

  close_container-Shrinks :
      (force : Bool) (w : World D) (id : String) (k : Kill) (o : Option Container)
      → Lacks slash id
      → PlainWakes k.wakes
      → Shrinks D w.store (close_container D force w id k o).1.store
  unfolding close_container
  close_container-Shrinks force w id k none plain h = Shrinks-refl D w.store
  close_container-Shrinks force w id k (some c) plain h =
      closed-Shrinks w.store id (terminate_container D (timeout_of force) w c k) plain
        (terminate_container-Shrinks w.store (timeout_of force) w c k h (Shrinks-refl D w.store))

  module _ (kills : String → Kill) (plain_kills : (id : String) → PlainWakes (kills id).wakes) where
    close_all-Shrinks :
        (force : Bool) (w : World D) (pod : Sandbox) (ids : List String)
        → Lacks slash pod.id
        → Sandbox.Fits pod
        → All (Lacks slash) ids
        → get_sandbox D w.store pod.id ≡ some (record pod { containers = ids })
        → Shrinks D w.store (close_all D force w pod ids kills).1.store
    close_all-Shrinks force w pod [] p fits plain found =
        unfold close_all in
        put_sandbox-Shrinks D L R w.store pod.id p (emptied pod) (emptied-Fits pod fits) (λ j l. cc)
    close_all-Shrinks force w pod (id ∷ ids) p fits plain found =
        let r = close_container D force w id (kills id) (get_container D w.store id) in
        let first =
          close_container-Shrinks force w id (kills id) (get_container D w.store id) plain.0
            (plain_kills id) in
        let round =
          close_container-Round D L R force w id (kills id) (get_container D w.store id) plain.0
            (plain_kills id) refl in
        let found1 = round.keeps.sandboxes pod.id p ∙ found in
        let shorter : Sandbox = record pod { containers = ids } in
        let second =
          put_sandbox-Shrinks D L R r.1.store pod.id p shorter (list-Fits pod ids fits)
            (λ j l. (record pod { containers = id ∷ ids }, found1, ground arith)) in
        elim (Outcome-cases r.0) [
          | inl e ↦ rw (close_all-next D L R kills plain_kills force w pod id ids e) (
              Shrinks-trans D (Shrinks-trans D first second) (
                close_all-Shrinks force (put_list D r.1 pod ids) pod ids p fits plain.1
                  (put_sandbox-found D L R r.1.store pod.id shorter p (list-Fits pod ids fits))))
          | inr (_, e) ↦ rw (close_all-stopped D L R kills plain_kills force w pod id ids e) first
        ]

    terminate_sandbox_containers-Shrinks :
        (force : Bool) (w : World D) (k : String) (pod : Sandbox)
        → Lacks slash k
        → get_sandbox D w.store k ≡ some pod
        → IsConsistent D w.store
        → Shrinks D w.store (terminate_sandbox_containers D force w pod kills).1.store
    unfolding terminate_sandbox_containers
    terminate_sandbox_containers-Shrinks force w k pod p e v =
        let sound = v.sandboxes k p pod e in
        close_all-Shrinks force w pod pod.containers (subst (Lacks slash) (sym sound.own_id) p)
          (get_sandbox-Fits D w.store k pod e) sound.plain
          (ap (get_sandbox D w.store) sound.own_id ∙ e)

    pub stop_pod_sandbox-Shrinks :
        (w : World D) (k : String)
        → Lacks slash k
        → IsConsistent D w.store
        → Shrinks D w.store (stop_pod_sandbox D w k kills).1.store
    unfolding stop_pod_sandbox
    stop_pod_sandbox-Shrinks w k p v = elim (Option-cases (get_sandbox D w.store k)) [
      | inl f ↦ rw (f, stop_pod_sandbox) (Shrinks-refl D w.store)
      | inr (pod, f) ↦
          rw (f, stop_pod_sandbox) (terminate_sandbox_containers-Shrinks false w k pod p f v)
    ]

    pod_removed_after-Shrinks :
        (s : D.State) (k : String) (r : Outcome (Unit {0}) × World D)
        → Lacks slash k
        → Shrinks D s r.1.store
        → Shrinks D s (Pods.removed_after D k r).1.store
    unfolding Pods.removed_after
    pod_removed_after-Shrinks s k (ok u, w) p h =
        Shrinks-trans D h (delete_sandbox-Shrinks D L R w.store k p)
    pod_removed_after-Shrinks s k (err e, w) p h = h
    pod_removed_after-Shrinks s k (waiting, w) p h = h

    pub remove_pod_sandbox-Shrinks :
        (w : World D) (k : String)
        → Lacks slash k
        → IsConsistent D w.store
        → Shrinks D w.store (remove_pod_sandbox D w k kills).1.store
    unfolding remove_pod_sandbox
    remove_pod_sandbox-Shrinks w k p v = elim (Option-cases (get_sandbox D w.store k)) [
      | inl f ↦ rw (f, remove_pod_sandbox) (Shrinks-refl D w.store)
      | inr (pod, f) ↦
          rw (f, remove_pod_sandbox)
            (pod_removed_after-Shrinks w.store k (terminate_sandbox_containers D true w pod kills) p
              (terminate_sandbox_containers-Shrinks true w k pod p f v))
    ]
