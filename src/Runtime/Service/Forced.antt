-- ===== src/Runtime/Service/Forced.antt =====
-- RemovePodSandbox always comes to its end, since its waits have a timeout of 0 seconds.
use luna_for_mac.Base.{
  ℕ, ◌<◌, String, Bool, true, false, ◌≡◌, refl, ◌∙◌, Option, none, some, List, [], ◌∷◌, Lacks, All,
  Distinct, ltb, arith, Bool-cases, inl, inr,
}
use luna_for_mac.Base.Int.{pos, int_eq}
use luna_for_mac.Path.{slash}
use luna_for_mac.Disk.{Diskv, IsLawful, IsReliable}
use luna_for_mac.Runtime.Duration.{seconds_duration}
use luna_for_mac.Runtime.Container.{Container}
use luna_for_mac.Runtime.Sandbox
use luna_for_mac.Runtime.Sandbox.{Sandbox}
use luna_for_mac.Runtime.Types.{World, Outcome, ok, err, waiting, is_running, sigterm}
use luna_for_mac.Runtime.Records.{get_container, get_sandbox}
use luna_for_mac.Runtime.Records.Laws.{get_sandbox-Fits}
use luna_for_mac.Runtime.Terminate.{
  Kill, Wake, tick, context_done, timer_wins, wait_loop, signal, target, terminate_container,
}
use luna_for_mac.Runtime.Terminate.Outcomes.{PlainWakes}
use luna_for_mac.Runtime.Pods
use luna_for_mac.Runtime.Pods.{
  closed, close_container, put_list, close_all, terminate_sandbox_containers, remove_pod_sandbox,
}
use luna_for_mac.Runtime.Pods.Rounds.{IsAbsent, close_container-Round, put_sandbox-found, list-Fits}
use luna_for_mac.Runtime.Pods.Closed.{close_all-next, remove_pod_sandbox_removes}
use luna_for_mac.Runtime.Service.{IsSoundPod, IsConsistent}
use luna_for_mac.Runtime.Service.Closing.{close_container-IsConsistent, shortened-IsConsistent}

-- The ticker or the end of the context comes at some time, and not at once.
abbrev pub ComesLater : List Wake → Type 0
ComesLater [] = ⊥
ComesLater ((at, tie, cause) ∷ wakes) = 0 < at

timer_first : (at : ℕ) (tie : Bool) → 0 < at → timer_wins (seconds_duration (pos 0)) 0 at tie ≡ true
unfolding seconds_duration
timer_first at tie h = let due : ltb 0 at ≡ true = ground arith in rw due refl

module _ (D : Diskv) where
  wait_loop-forced :
      (w : World D) (c : Container) (wakes : List Wake)
      → ComesLater wakes
      → (wait_loop D (seconds_duration (pos 0)) 0 w c wakes).0 ≡ ok tt
  unfolding wait_loop
  wait_loop-forced w c [] h = elim h [ ]
  wait_loop-forced w c ((at, tie, tick exits) ∷ wakes) h = rw (timer_first at tie h, wait_loop) refl
  wait_loop-forced w c ((at, tie, context_done) ∷ wakes) h =
      rw (timer_first at tie h, wait_loop) refl

  terminate_container-forced :
      (w : World D) (c : Container) (k : Kill)
      → (is_running c ≡ true → int_eq c.pid (pos 0) ≡ false)
      → ComesLater k.wakes
      → (terminate_container D (pos 0) w c k).0 ≡ ok tt
  unfolding terminate_container
  terminate_container-forced w c k process h = elim (Bool-cases (is_running c)) [
    | inr e ↦ rw e refl
    | inl e ↦ elim (Bool-cases k.process_found) [
      | inr g ↦ rw (e, process e, g) refl
      | inl g ↦ elim (Bool-cases k.term_delivered) [
        | inr d ↦ rw (e, process e, g, d) refl
        | inl d ↦
            rw (e, process e, g, d)
              (wait_loop-forced (signal D w (target D c.pid k.process_group) sigterm) c k.wakes h)
      ]
    ]
  ]

  closed-ok :
      (id : String) (r : Outcome (Unit {0}) × World D) → r.0 ≡ ok tt → (closed D id r).0 ≡ ok tt
  unfolding closed
  closed-ok id (ok u, w) e = refl
  closed-ok id (err f, w) e = e
  closed-ok id (waiting, w) e = e

  close_container-forced :
      (w : World D) (id : String) (k : Kill) (o : Option Container)
      → ((c : Container) → o ≡ some c → is_running c ≡ true → int_eq c.pid (pos 0) ≡ false)
      → ComesLater k.wakes
      → (close_container D true w id k o).0 ≡ ok tt
  unfolding close_container
  close_container-forced w id k none process h = refl
  close_container-forced w id k (some c) process h =
      closed-ok id (terminate_container D (pos 0) w c k)
        (terminate_container-forced w c k (process c refl) h)

  removed_after-ok :
      (id : String) (r : Outcome (Unit {0}) × World D)
      → r.0 ≡ ok tt
      → (Pods.removed_after D id r).0 ≡ ok tt
  unfolding Pods.removed_after
  removed_after-ok id (ok u, w) e = refl
  removed_after-ok id (err f, w) e = e
  removed_after-ok id (waiting, w) e = e

module _ (D : Diskv) (L : IsLawful D) (R : IsReliable D) (kills : String → Kill)
    (plain_kills : (id : String) → PlainWakes (kills id).wakes)
    (later : (id : String) → ComesLater (kills id).wakes) where
  close_all-forced :
      (w : World D) (pod : Sandbox) (ids : List String)
      → Lacks slash pod.id
      → IsSoundPod pod.id pod
      → Sandbox.Fits pod
      → All (Lacks slash) ids
      → Distinct ids
      → get_sandbox D w.store pod.id ≡ some (record pod { containers = ids })
      → IsConsistent D w.store
      → (close_all D true w pod ids kills).0 ≡ ok tt
  close_all-forced w pod [] p sound fits plain distinct found v = unfold close_all in refl
  close_all-forced w pod (id ∷ ids) p sound fits plain distinct found v =
      let o = get_container D w.store id in
      let r = close_container D true w id (kills id) o in
      let fine =
        close_container-forced D w id (kills id) o
          (λ c e. (v.containers id plain.0 c e).has_process) (later id) in
      let v1 =
        close_container-IsConsistent D L R true w id (kills id) o plain.0 (plain_kills id) v in
      let kept =
        (close_container-Round D L R true w id (kills id) o plain.0 (plain_kills id) refl).keeps in
      let found1 = kept.sandboxes pod.id p ∙ found in
      rw (close_all-next D L R kills plain_kills true w pod id ids fine) (
        close_all-forced (put_list D r.1 pod ids) pod ids p sound fits plain.1 distinct.1
          (put_sandbox-found D L R r.1.store pod.id (record pod { containers = ids }) p
            (list-Fits pod ids fits))
          (shortened-IsConsistent D L R r.1 pod id ids p sound fits plain distinct found1 v1))

  remove_pod_sandbox-ok :
      (w : World D) (pod : Sandbox)
      → get_sandbox D w.store pod.id ≡ some pod
      → (close_all D true w pod pod.containers kills).0 ≡ ok tt
      → (remove_pod_sandbox D w pod.id kills).0 ≡ ok tt
  unfolding remove_pod_sandbox terminate_sandbox_containers
  remove_pod_sandbox-ok w pod found fine =
      rw (found, remove_pod_sandbox)
        (removed_after-ok D pod.id (close_all D true w pod pod.containers kills) fine)

  -- In a consistent store RemovePodSandbox of a stored sandbox returns, and without an error,
  -- whatever its containers' processes do, as long as each of its waits has a tick or the end of
  -- the call's context at some time after its start: the timer of 0 seconds comes first. The sandbox
  -- and every container that it listed are then gone from the store. The disk is lawful and
  -- reliable, the ids hold no slash, and the exit codes are of their Go type.
  pub remove_pod_sandbox_returns :
      (w : World D) (pod : Sandbox)
      → Lacks slash pod.id
      → IsConsistent D w.store
      → get_sandbox D w.store pod.id ≡ some pod
      → let (answer, v) = remove_pod_sandbox D w pod.id kills in
        (answer ≡ ok tt)
        × (get_sandbox D v.store pod.id ≡ none)
        × All (IsAbsent D v.store) pod.containers
  remove_pod_sandbox_returns w pod p v found =
      let sound = v.sandboxes pod.id p pod found in
      let fine = remove_pod_sandbox-ok w pod found (
        close_all-forced w pod pod.containers p sound (get_sandbox-Fits D w.store pod.id pod found)
          sound.plain sound.distinct found v) in
      let (gone, absent) =
        remove_pod_sandbox_removes D L R kills plain_kills w pod p sound.plain found fine in
      (fine, gone, absent)
