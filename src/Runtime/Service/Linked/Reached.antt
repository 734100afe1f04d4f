-- ===== src/Runtime/Service/Linked/Reached.antt =====
-- In every state that the calls and the exits of processes lead to, stored containers are in the
-- lists of their stored sandboxes, but for those whose removal was cut short.
use luna_for_mac.Base.{
  String, false, ◌≡◌, ◌≢◌, sym, ap, subst, ◌∙◌, none, some, List, [], Lacks, contains,
}
use luna_for_mac.Path.{slash}
use luna_for_mac.Disk.{Diskv, IsLawful, IsReliable}
use luna_for_mac.Runtime.Container.{Container}
use luna_for_mac.Runtime.Sandbox.{Sandbox}
use luna_for_mac.Runtime.Records.{get_container, get_sandbox}
use luna_for_mac.Runtime.Types.{World, ok}
use luna_for_mac.Runtime.Terminate.{Kill}
use luna_for_mac.Runtime.Terminate.Outcomes.{PlainWakes}
use luna_for_mac.Runtime.Stop.{remove_container}
use luna_for_mac.Runtime.Pods.{remove_pod_sandbox}
use luna_for_mac.Runtime.Pods.Closed.{remove_pod_sandbox_removes}
use luna_for_mac.Runtime.Service.{
  IsConsistent, Step, create, start, exit, stop, remove, run_sandbox, stop_pod, remove_pod, Reach,
  here, next,
}
use luna_for_mac.Runtime.Service.Reached.{Reach-IsConsistent}
use luna_for_mac.Runtime.Service.Linked.{IsLinked}
use luna_for_mac.Runtime.Service.Linked.Ending.{
  cut_short, IsKept, track_exit-IsKept, stop_container-IsKept, remove_container-IsLinked,
}
use luna_for_mac.Runtime.Service.Linked.Closing.{
  stop_pod_sandbox-IsLinked, remove_pod_sandbox-IsLinked,
}
use luna_for_mac.Runtime.Service.Linked.Making.{
  create_container-IsLinked, start_container-IsLinked, run_pod_sandbox-IsLinked,
}

-- The containers for which a call of RemoveContainer failed or still waits.
unfoldable pub cut_by : (D : Diskv) → {w v : World D} → Step D w v → List String → List String
unfolding cut_short
cut_by D {w} (remove cid k plain wakes) spared = cut_short (remove_container D w cid k).0 cid spared
cut_by D _ spared = spared

unfoldable pub cut_along : (D : Diskv) → {w v : World D} → Reach D w v → List String
unfolding cut_by
cut_along D here = []
cut_along D (next r step) = cut_by D step (cut_along D r)

-- No container of the sandbox is stored, those with the spared ids aside.
pub record IsSwept (D : Diskv) (spared : List String) (k : String) (s : D.State) : Type 0 where
  pub swept :
      (j : String) (c : Container)
      → Lacks slash j
      → contains spared j ≡ false
      → get_container D s j ≡ some c
      → c.pod_id ≢ k

module _ (D : Diskv) (L : IsLawful D) (R : IsReliable D) where
  Step-IsLinked :
      (spared : List String) {w v : World D} (step : Step D w v)
      → IsKept D L R spared w.store
      → IsLinked D (cut_by D step spared) v.store
  unfolding cut_by
  Step-IsLinked spared {w} (create o req fresh typed plain) h =
      create_container-IsLinked D L R spared o w req fresh typed plain h
  Step-IsLinked spared {w} (start l cid plain ids now) h =
      start_container-IsLinked D L R spared l w cid plain ids now h
  Step-IsLinked spared {w} (exit e plain) h = (track_exit-IsKept D L R spared w.store e plain h).1
  Step-IsLinked spared {w} (stop timeout cid k plain wakes) h =
      (stop_container-IsKept D L R spared timeout w cid k wakes h).1
  Step-IsLinked spared {w} (remove cid k plain wakes) (v, l) =
      remove_container-IsLinked D L R spared w cid k plain wakes v l
  Step-IsLinked spared {w} (run_sandbox now config m has_metadata plain fits) h =
      run_pod_sandbox-IsLinked D L R spared now w config m has_metadata plain fits h
  Step-IsLinked spared {w} (stop_pod id kills plain wakes) h =
      stop_pod_sandbox-IsLinked D L R spared kills wakes w id plain h
  Step-IsLinked spared {w} (remove_pod id kills plain wakes) h =
      remove_pod_sandbox-IsLinked D L R spared kills wakes w id plain h

  -- Whatever calls of the service are made and whatever processes exit, one after the other: every
  -- stored container under an id without a slash is in the list of its stored sandbox, but for
  -- those for which a call of RemoveContainer failed or still waits, if at first every one was and
  -- the store was consistent. The requests hold values of their Go types and names without slashes,
  -- a new id is fresh, the exit codes are of their Go type, the processes that start have ids other
  -- than 0, and the disk is lawful and reliable.
  pub Reach-IsLinked :
      {w v : World D} (r : Reach D w v)
      → IsConsistent D w.store
      → IsLinked D [] w.store
      → IsLinked D (cut_along D r) v.store
  unfolding cut_along
  Reach-IsLinked here h l = l
  Reach-IsLinked (next r step) h l =
      Step-IsLinked (cut_along D r) step (Reach-IsConsistent D L R r h, Reach-IsLinked r h l)

  -- In every state that the calls and exits lead to from a consistent store whose containers were
  -- all listed by their sandboxes: once RemovePodSandbox of a stored sandbox has answered without
  -- an error, no container of that sandbox is stored under an id without a slash, but for those for
  -- which an earlier call of RemoveContainer failed or still waits. The disk is lawful and
  -- reliable, the ids hold no slash, and the exit codes are of their Go type.
  pub remove_pod_sandbox-IsSwept :
      (kills : String → Kill)
      → ((id : String) → PlainWakes (kills id).wakes)
      → (w v : World D) (r : Reach D w v) → IsConsistent D w.store
      → IsLinked D [] w.store
      → (k : String) (pod : Sandbox) → Lacks slash k
      → get_sandbox D v.store k ≡ some pod
      → (remove_pod_sandbox D v k kills).0 ≡ ok tt
      → IsSwept D (cut_along D r) k (remove_pod_sandbox D v k kills).1.store
  remove_pod_sandbox-IsSwept kills plain_kills w v r h l k pod p found fine =
      let kept : IsKept D L R (cut_along D r) v.store =
        (Reach-IsConsistent D L R r h, Reach-IsLinked r h l) in
      let sound = kept.0.sandboxes k p pod found in
      let after = remove_pod_sandbox D v k kills in
      let gone : get_sandbox D after.1.store k ≡ none =
        subst (λ i. get_sandbox D (remove_pod_sandbox D v i kills).1.store i ≡ none) sound.own_id
          (remove_pod_sandbox_removes D L R kills plain_kills v pod
            (subst (Lacks slash) (sym sound.own_id) p) sound.plain
            (ap (get_sandbox D v.store) sound.own_id ∙ found)
            (ap (λ i. (remove_pod_sandbox D v i kills).0) sound.own_id ∙ fine)).0 in
      let linked = remove_pod_sandbox-IsLinked D L R (cut_along D r) kills plain_kills v k p kept in
      record {
        swept = λ j c q out stored own.
            let (listing, home, lists) = linked.home j c q out stored in
            cc (sym gone ∙ ap (get_sandbox D after.1.store) (sym own) ∙ home);
      }
