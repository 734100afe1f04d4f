-- ===== src/Runtime/Tests/Pool.antt =====
-- A call of CreateContainer during which the container of its sandbox exits and StopPodSandbox is
-- handled, on the store in memory.
use luna_for_mac.Base.{false, ◌≡◌, refl, sym, ◌∙◌, [], ◌==◌, contains}
use luna_for_mac.Disk.Memory.{memory, memory-IsLawful, memory-IsReliable}
use luna_for_mac.Runtime.Sandbox.{Sandbox}
use luna_for_mac.Runtime.Records.{make_pod_id, put_container, get_sandbox}
use luna_for_mac.Runtime.Records.Laws.{get_sandbox-put_sandbox, get_sandbox-put_container}
use luna_for_mac.Runtime.Types.{World}
use luna_for_mac.Runtime.Pods.{stop_pod_sandbox}
use luna_for_mac.Runtime.Overlap.{made, advance}
use luna_for_mac.Runtime.Overlap.Pool.{
  IsProper, IsUnlisted, arrives, goes_on, another, at_once, after,
}
use luna_for_mac.Runtime.Overlap.Pool.Reached.{Moves-IsConsistent}
use luna_for_mac.Runtime.Service.{IsConsistent, stop_pod}
use luna_for_mac.Runtime.Service.Store.{written}
use luna_for_mac.Runtime.Tests.{
  pod, cnt, pod-Fits, store, world, c1-plain, pod-plain, exits_soon, plain_kills,
}
use luna_for_mac.Runtime.Tests.Requests.{c2-plain, typed}
use luna_for_mac.Runtime.Tests.Reached.{no_sandbox, store-IsConsistent}
use luna_for_mac.Runtime.Tests.Overlap.{a}

a-IsProper : IsProper a
unfolding make_pod_id
a-IsProper = record { typed = typed; plain = c2-plain; plain_pod = pod-plain }

c2-IsUnlisted : IsUnlisted memory store "c2"
c2-IsUnlisted = record {
  unlisted = λ k p q e.
      written (λ (x : Sandbox). contains x.containers "c2" ≡ false) ("default_web" == k) pod
        (get_sandbox memory (put_container memory [] "c1" cnt) k) p
        (sym (
            get_sandbox-put_sandbox memory memory-IsLawful memory-IsReliable
              (put_container memory [] "c1" cnt) "default_web" k pod-plain q pod pod-Fits)
          ∙ e)
        (λ here. refl)
        (λ x found.
          let absent =
            get_sandbox-put_container memory memory-IsLawful memory-IsReliable [] "c1" k c1-plain q
              cnt
            ∙ no_sandbox k in
          cc (found, absent));
}

-- The world in which the call has looked up its sandbox, and that in which the sandbox was stopped.
abbrev looked_up : World memory
looked_up = (advance memory world (made a)).1

abbrev stopped : World memory
stopped = (stop_pod_sandbox memory looked_up "default_web" (λ id. exits_soon)).1

Moves-IsConsistent_example :
    IsConsistent memory (advance memory stopped (advance memory world (made a)).0).1.store
Moves-IsConsistent_example =
    Moves-IsConsistent memory memory-IsLawful memory-IsReliable
      (after
        (after
          (after (after at_once (arrives a a-IsProper refl c2-IsUnlisted (λ j. refl)))
            (goes_on "c2" (made a) refl))
          (another (stop_pod "default_web" (λ id. exits_soon) pod-plain plain_kills) tt))
        (goes_on "c2" (advance memory world (made a)).0 refl))
      store-IsConsistent
