-- ===== src/Runtime/Service/Orphaned.antt =====
-- RemoveContainer of a caller whose context has ended.
use luna_for_mac.Base.{
  String, true, false, ◌≡◌, refl, ◌∙◌, some, List, ◌∷◌, Lacks, eq_refl, contains,
}
use luna_for_mac.Base.Int.{int_eq, pos}
use luna_for_mac.Path.{slash}
use luna_for_mac.Disk.{Diskv, IsLawful, IsReliable}
use luna_for_mac.Runtime.Container.{Container}
use luna_for_mac.Runtime.Sandbox.{Sandbox}
use luna_for_mac.Runtime.Types.{World, err, cancelled, is_running}
use luna_for_mac.Runtime.Records.{get_container, get_sandbox}
use luna_for_mac.Runtime.Records.Laws.{
  get_container-put_sandbox, get_sandbox-put_sandbox, get_sandbox-Fits,
}
use luna_for_mac.Runtime.Terminate.{Kill, context_done, Wake}
use luna_for_mac.Runtime.Stop.{remove_first, remove_container}
use luna_for_mac.Runtime.Stop.Removed.{remove_container-cancelled}
use luna_for_mac.Runtime.Pods.Rounds.{list-Fits}
use luna_for_mac.Runtime.Service.{IsConsistent}
use luna_for_mac.Runtime.Service.Unlisted.{remove_first_gone}

module _ (D : Diskv) (L : IsLawful D) (R : IsReliable D) where
  -- In a consistent store, RemoveContainer of a running container with a pid, which its stored
  -- sandbox lists and whose process is found and takes the signal, begins to wait when the call's context has ended
  -- already, and the `select` takes the context and not the timer of 0 seconds, which is due as
  -- well. Then the call fails and the container is still in the store, as it was, and its sandbox
  -- is there as well, but no longer lists the container. The disk is lawful and reliable, and the
  -- container's id holds no slash.
  pub remove_container_orphans :
      (w : World D) (cid : String) (k : Kill) (wakes : List Wake) (c : Container) (pod : Sandbox)
      → IsConsistent D w.store
      → Lacks slash cid
      → get_container D w.store cid ≡ some c
      → is_running c ≡ true
      → int_eq c.pid (pos 0) ≡ false
      → k.process_found ≡ true
      → k.term_delivered ≡ true
      → k.wakes ≡ (0, false, context_done) ∷ wakes
      → get_sandbox D w.store c.pod_id ≡ some pod
      → contains pod.containers cid ≡ true
      → let (answer, v) = remove_container D w cid k in
        (answer ≡ err cancelled)
        × (get_container D v.store cid ≡ some c)
        × ((ids : List String) × (get_sandbox D v.store c.pod_id
              ≡ some (record pod { containers = ids }))
            × (contains ids cid ≡ false))
  remove_container_orphans w cid k wakes c pod v p found running started alive delivered woken
        in_pod listed =
      let pod' : Sandbox = record pod { containers = remove_first cid pod.containers } in
      let q = (v.containers cid p c found).plain_pod in
      rw
        (remove_container-cancelled D L R w cid k wakes c pod found running started alive delivered
          woken in_pod listed)
        (
          refl,
          get_container-put_sandbox D L R w.store c.pod_id cid q p pod' ∙ found,
          (
            remove_first cid pod.containers,
            get_sandbox-put_sandbox D L R w.store c.pod_id c.pod_id q q pod'
                  (list-Fits pod _ (get_sandbox-Fits D w.store c.pod_id pod in_pod))
                ∙ rw (eq_refl c.pod_id) refl,
            remove_first_gone cid pod.containers (v.sandboxes c.pod_id q pod in_pod).distinct,
          ),
        )
