-- ===== src/Runtime/Service/Reached.antt =====
-- What holds in every state that the calls and the exits of processes lead to.
use luna_for_mac.Base.{String, ◌≡◌, ◌∙◌, subst, sym, ap, none, some, Lacks}
use luna_for_mac.Base.Int.{pos}
use luna_for_mac.Path.{slash}
use luna_for_mac.Disk.{Diskv, IsLawful, IsReliable}
use luna_for_mac.Runtime.Sandbox.{Sandbox}
use luna_for_mac.Runtime.Records.{get_container, get_sandbox}
use luna_for_mac.Runtime.Types.{World, ok}
use luna_for_mac.Runtime.Terminate.{Kill}
use luna_for_mac.Runtime.Terminate.Outcomes.{PlainWakes}
use luna_for_mac.Runtime.Pods.{stop_pod_sandbox}
use luna_for_mac.Runtime.Pods.Rounds.{Closes}
use luna_for_mac.Runtime.Pods.Closed.{stop_pod_sandbox-Closes}
use luna_for_mac.Runtime.Listing.{ContainerStatus, container_status}
use luna_for_mac.Runtime.Listing.Status.{container_status-found}
use luna_for_mac.Runtime.Service.{
  IsConsistent, Step, create, start, exit, stop, remove, run_sandbox, stop_pod, remove_pod, Reach,
  here, next,
}
use luna_for_mac.Runtime.Service.Ending.{
  track_exit-IsConsistent, stop_container-IsConsistent, remove_container-IsConsistent,
}
use luna_for_mac.Runtime.Service.Closing.{
  stop_pod_sandbox-IsConsistent, remove_pod_sandbox-IsConsistent,
}
use luna_for_mac.Runtime.Service.Making.{create_container-IsConsistent}
use luna_for_mac.Runtime.Service.Starting.{
  start_container-IsConsistent, run_pod_sandbox-IsConsistent,
}

pub nothing-IsConsistent :
    (D : Diskv) (s : D.State)
    → ((k : String) → get_container D s k ≡ none)
    → ((k : String) → get_sandbox D s k ≡ none)
    → IsConsistent D s
nothing-IsConsistent D s no_container no_sandbox = record {
  containers = λ k p c h. cc (no_container k);
  sandboxes = λ k p c h. cc (no_sandbox k);
  belongs = λ j k p q c b h g l. cc (no_container j);
}

module _ (D : Diskv) (L : IsLawful D) (R : IsReliable D) where
  pub Step-IsConsistent :
      {w v : World D} → Step D w v → IsConsistent D w.store → IsConsistent D v.store
  Step-IsConsistent {w} (create o req fresh typed plain) h =
      create_container-IsConsistent D L R o w req fresh typed plain h
  Step-IsConsistent {w} (start l cid plain ids now) h =
      start_container-IsConsistent D L R l w cid plain ids now h
  Step-IsConsistent {w} (exit e plain) h = track_exit-IsConsistent D L R w.store e plain h
  Step-IsConsistent {w} (stop timeout cid k plain wakes) h =
      stop_container-IsConsistent D L R timeout w cid k wakes h
  Step-IsConsistent {w} (remove cid k plain wakes) h =
      remove_container-IsConsistent D L R w cid k plain wakes h
  Step-IsConsistent {w} (run_sandbox now config m has_metadata plain fits) h =
      run_pod_sandbox-IsConsistent D L R now w config m has_metadata plain fits h
  Step-IsConsistent {w} (stop_pod id kills plain wakes) h =
      stop_pod_sandbox-IsConsistent D L R kills wakes w id plain h
  Step-IsConsistent {w} (remove_pod id kills plain wakes) h =
      remove_pod_sandbox-IsConsistent D L R kills wakes w id plain h

  -- Whatever calls of the service are made and whatever processes exit, in whatever order, a
  -- consistent store stays consistent: every container under an id without a slash has that id, a
  -- known state, a process other than 0 if it runs, and no time of finishing, every sandbox has its
  -- own id, a known state, and a list of distinct ids without slashes, and a stored container is
  -- listed by no sandbox but its own. The requests hold values of their Go types and names without
  -- slashes, a new id is fresh, an exit code is of its Go type, the processes that start have ids
  -- other than 0, and the disk is lawful and reliable.
  pub Reach-IsConsistent :
      {w v : World D} → Reach D w v → IsConsistent D w.store → IsConsistent D v.store
  Reach-IsConsistent here h = h
  Reach-IsConsistent (next r step) h = Step-IsConsistent step (Reach-IsConsistent r h)

  -- In every state that the calls and exits lead to from a consistent store, StopPodSandbox of a
  -- stored sandbox either empties its list, marks it as not ready and removes its containers, or
  -- stops short and leaves the list as what is left to do. The disk is lawful and reliable, the ids
  -- hold no slash, and the exit codes are of their Go type.
  pub stop_pod_sandbox-Reach :
      (kills : String → Kill)
      → ((id : String) → PlainWakes (kills id).wakes)
      → (w v : World D) → Reach D w v
      → IsConsistent D w.store
      → (k : String) (pod : Sandbox) → Lacks slash k
      → get_sandbox D v.store k ≡ some pod
      → Closes D L R pod pod.containers (stop_pod_sandbox D v k kills)
  stop_pod_sandbox-Reach kills plain_kills w v r h k pod p found =
      let sound = (Reach-IsConsistent r h).sandboxes k p pod found in
      let own = sound.own_id in
      subst (λ i. Closes D L R pod pod.containers (stop_pod_sandbox D v i kills)) own
        (stop_pod_sandbox-Closes D L R kills plain_kills v pod (subst (Lacks slash) (sym own) p)
          sound.plain (ap (get_sandbox D v.store) own ∙ found))

  -- In every state that the calls and exits lead to from a consistent store, ContainerStatus of an
  -- id without a slash, if it answers with a status, gives 0 as the time at which the container
  -- finished, also for a container that has exited. The disk is lawful and reliable.
  pub container_status-Reach :
      (w v : World D)
      → Reach D w v
      → IsConsistent D w.store
      → (cid : String) (status : ContainerStatus) → Lacks slash cid
      → container_status D v.store cid ≡ ok status
      → status.finished_at ≡ pos 0
  container_status-Reach w v r h cid status p e =
      let (c, found, same) = container_status-found D v.store cid status e in
      ap (λ (s : ContainerStatus). s.finished_at) same
      ∙ ((Reach-IsConsistent r h).containers cid p c found).finish_unset
