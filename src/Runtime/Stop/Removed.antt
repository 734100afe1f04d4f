-- ===== src/Runtime/Stop/Removed.antt =====
-- What RemoveContainer leaves in the store.
use luna_for_mac.Base.{
  String, true, false, ◌≡◌, refl, ◌∙◌, Option, none, some, List, ◌∷◌, arith, Lacks, eq_refl,
  contains,
}
use luna_for_mac.Base.Int.{int_eq, pos}
use luna_for_mac.Path.{slash}
use luna_for_mac.Disk.{Diskv, IsLawful, IsReliable}
use luna_for_mac.Runtime.Duration.{seconds_duration}
use luna_for_mac.Runtime.Container.{Container}
use luna_for_mac.Runtime.Sandbox.{Sandbox}
use luna_for_mac.Runtime.Types.{
  World, Outcome, ok, err, waiting, cancelled, is_running, sigterm, sigkill,
}
use luna_for_mac.Runtime.Records.{get_container, get_sandbox, put_sandbox}
use luna_for_mac.Runtime.Records.Laws.{get_container-delete_container}
use luna_for_mac.Runtime.Terminate.{
  Kill, context_done, terminate_container, wait_loop, Wake, target, signal,
}
use luna_for_mac.Runtime.Stop.{remove_first, detach, removed_after, remove_found, remove_container}

module _ (D : Diskv) (L : IsLawful D) (R : IsReliable D) where
  removed_after-absent :
      (cid : String) (r : Outcome (Unit {0}) × World D) (a : Option (Unit {0}))
      → Lacks slash cid
      → (removed_after D cid r).0 ≡ ok a
      → get_container D (removed_after D cid r).1.store cid ≡ none
  unfolding removed_after
  removed_after-absent cid (ok tt, v) a p h =
      get_container-delete_container D L R v.store cid cid p p ∙ rw (eq_refl cid) refl
  removed_after-absent cid (err e, v) a p h = absurd (ground arith)
  removed_after-absent cid (waiting, v) a p h = absurd (ground arith)

  remove_found-absent :
      (w : World D) (cid : String) (k : Kill) (o : Option Container)
      → Lacks slash cid
      → get_container D w.store cid ≡ o
      → (r : Option (Unit {0})) → (remove_found D w cid k o).0 ≡ ok r
      → get_container D (remove_found D w cid k o).1.store cid ≡ none
  unfolding remove_found
  remove_found-absent w cid k none p e r h = e
  remove_found-absent w cid k (some c) p e r h =
      let s = detach D w.store c.pod_id cid (get_sandbox D w.store c.pod_id) in
      removed_after-absent cid (terminate_container D (pos 0) (record w { store = s }) c k) r p h

  -- Once RemoveContainer has answered without an error, the container is gone from the store. The
  -- disk is lawful and reliable, and the ids hold no slash.
  pub remove_container_removes :
      (w : World D) (cid : String) (k : Kill) (r : Option (Unit {0}))
      → Lacks slash cid
      → (remove_container D w cid k).0 ≡ ok r
      → get_container D (remove_container D w cid k).1.store cid ≡ none
  unfolding remove_container
  remove_container_removes w cid k r p h =
      remove_found-absent w cid k (get_container D w.store cid) p refl r h

  terminate_container-cancelled :
      (w : World D) (k : Kill) (wakes : List Wake) (c : Container)
      → is_running c ≡ true
      → int_eq c.pid (pos 0) ≡ false
      → k.process_found ≡ true
      → k.term_delivered ≡ true
      → k.wakes ≡ (0, false, context_done) ∷ wakes
      → terminate_container D (pos 0) w c k ≡ (
        err cancelled,
        signal D (signal D w (target D c.pid k.process_group) sigterm) c.pid sigkill,
      )
  unfolding terminate_container wait_loop seconds_duration
  terminate_container-cancelled w k wakes c running started alive delivered woken =
      rw (running, started, alive, delivered, woken) refl

  pub remove_container-cancelled :
      (w : World D) (cid : String) (k : Kill) (wakes : List Wake) (c : Container) (pod : Sandbox)
      → get_container D w.store cid ≡ some c
      → is_running c ≡ true
      → int_eq c.pid (pos 0) ≡ false
      → k.process_found ≡ true
      → k.term_delivered ≡ true
      → k.wakes ≡ (0, false, context_done) ∷ wakes
      → get_sandbox D w.store c.pod_id ≡ some pod
      → contains pod.containers cid ≡ true
      → let s =
          put_sandbox D w.store c.pod_id
            (record pod { containers = remove_first cid pod.containers }) in
        let w' : World D = record w { store = s } in
        remove_container D w cid k ≡ (
          err cancelled,
          signal D (signal D w' (target D c.pid k.process_group) sigterm) c.pid sigkill,
        )
  unfolding remove_container remove_found removed_after detach
  remove_container-cancelled w cid k wakes c pod found running started alive delivered woken in_pod
        listed =
      rw
        (
          found,
          in_pod,
          listed,
          terminate_container-cancelled _ k wakes c running started alive delivered woken,
        )
        refl
