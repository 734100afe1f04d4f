-- ===== src/Runtime/Tests/Linked.antt =====
-- Containers and the lists of their sandboxes, on the store in memory.
use mathlib.Core.Option.{some-injective}
use luna_for_mac.Base.{
  All, none, String, true, false, List, contains, ◌≡◌, refl, sym, ap, ◌∙◌, some, [], ◌∷◌, ◌==◌,
  if◌then◌else◌, arith, Lacks, Bool-cases, inl, inr,
}
use luna_for_mac.Path.{slash, clean, join_path}
use luna_for_mac.Json.{find_field, to_map_fields, of_map, to_texts_items, of_texts}
use luna_for_mac.Disk.Memory.{find, remove, memory, memory-IsLawful, memory-IsReliable}
use luna_for_mac.Runtime.Container.{Container, of_container, to_container}
use luna_for_mac.Runtime.Sandbox.{of_sandbox, to_sandbox}
use luna_for_mac.Runtime.Records.{
  get_container, put_container, get_sandbox, put_sandbox, delete_container, make_container_key,
  make_sandbox_key,
}
use luna_for_mac.Runtime.Records.Laws.{get_container-put_container}
use luna_for_mac.Runtime.Types.{World, ok, err, cancelled}
use luna_for_mac.Runtime.Duration.{seconds_duration}
use luna_for_mac.Runtime.Terminate.{track_exit, track_exits, wait_loop, terminate_container}
use luna_for_mac.Runtime.Stop.{remove_container, remove_found, detach, remove_first}
use luna_for_mac.Runtime.Stop
use luna_for_mac.Runtime.Pods.{remove_pod_sandbox}
use luna_for_mac.Runtime.Terminate.Stored.{IsStored}
use luna_for_mac.Runtime.Pods.Spared.{remove_pod_sandbox_spares}
use luna_for_mac.Runtime.Service.{Reach, here, next, remove as removes_step}
use luna_for_mac.Runtime.Service.Store.{put_container-IsConsistent}
use luna_for_mac.Runtime.Service.Linked.{IsLinked, put_sandbox-IsLinked}
use luna_for_mac.Runtime.Service.Linked.Ending.{cut_short}
use luna_for_mac.Runtime.Service.Linked.Reached.{
  cut_by, cut_along, IsSwept, Reach-IsLinked, remove_pod_sandbox-IsSwept,
}
use luna_for_mac.Runtime.Tests.{
  pod, cnt, pod-Fits, cnt-Fits, store, world, c1-plain, pod-plain, exits_soon, plain_kills,
  pod_stored, cnt_stored, given_up, removes_pod,
}
use luna_for_mac.Runtime.Tests.Reached.{no_container, no_sandbox, cnt-IsSound, store-IsConsistent}
use luna_for_mac.Runtime.Pods.Rounds.{IsAbsent}
use luna_for_mac.Runtime.Service.Forced.{remove_pod_sandbox_returns}
use luna_for_mac.Runtime.Service.Orphaned.{remove_container_orphans}
use luna_for_mac.Runtime.Service.Reached.{nothing-IsConsistent}

only_c1 :
    (j : String) (a : Container)
    → Lacks slash j
    → get_container memory (put_container memory [] "c1" cnt) j ≡ some a
    → (("c1" == j) ≡ true) × (a ≡ cnt)
only_c1 j a q g =
    let there =
      get_container-put_container memory memory-IsLawful memory-IsReliable [] "c1" j c1-plain q cnt
        cnt-Fits in
    elim (Bool-cases ("c1" == j)) [
      | inl e ↦ (
        e,
        some-injective _ _
            (sym g ∙ there ∙ ap (λ b. if b then some cnt else get_container memory [] j) e),
      )
      | inr e ↦
          let absent =
            there
            ∙ ap (λ b. if b then some cnt else get_container memory [] j) e
            ∙ no_container j in
          cc (g, absent)
    ]

store-IsLinked : IsLinked memory [] store
store-IsLinked =
    put_sandbox-IsLinked memory memory-IsLawful memory-IsReliable (put_container memory [] "c1" cnt)
      (put_container-IsConsistent memory memory-IsLawful memory-IsReliable []
        (nothing-IsConsistent memory [] no_container no_sandbox) "c1" c1-plain cnt cnt-Fits
        cnt-IsSound (λ k p q g l. cc (no_sandbox k)))
      "default_web" pod-plain [] pod pod-Fits
      (λ j a q out found own. let (same, _) = only_c1 j a q found in ground arith)
      (λ j a q out found other.
        let (_, same) = only_c1 j a q found in
        let home : ("default_web" == a.pod_id) ≡ true =
          ap (λ (c : Container). "default_web" == c.pod_id) same in
        cc (other, home))

remove_container_orphans_example :
    let (answer, v) = remove_container memory world "c1" given_up in
    (answer ≡ err cancelled)
    × (get_container memory v.store "c1" ≡ some cnt)
    × ((ids : List String) × (get_sandbox memory v.store "default_web"
          ≡ some (record pod { containers = ids }))
        × (contains ids "c1" ≡ false))
remove_container_orphans_example =
    remove_container_orphans memory memory-IsLawful memory-IsReliable world "c1" given_up [] cnt pod
      store-IsConsistent c1-plain cnt_stored refl refl refl refl refl pod_stored refl

remove_pod_sandbox_returns_example :
    let (answer, v) = remove_pod_sandbox memory world "default_web" (λ id. exits_soon) in
    (answer ≡ ok tt)
    × (get_sandbox memory v.store "default_web" ≡ none)
    × All (IsAbsent memory v.store) ("c1" ∷ [])
remove_pod_sandbox_returns_example =
    remove_pod_sandbox_returns memory memory-IsLawful memory-IsReliable (λ id. exits_soon)
      plain_kills (λ id. omega arith) world pod pod-plain store-IsConsistent pod_stored

-- The caller of RemoveContainer gives up.
gives_up : Reach memory world (remove_container memory world "c1" given_up).1
gives_up = next here (removes_step "c1" given_up c1-plain tt)

Reach-IsLinked_example :
    IsLinked memory
      (cut_along memory gives_up)
      (remove_container memory world "c1" given_up).1.store
Reach-IsLinked_example =
    Reach-IsLinked memory memory-IsLawful memory-IsReliable gives_up store-IsConsistent
      store-IsLinked

cuts_c1 : cut_along memory gives_up ≡ "c1" ∷ []
unfolding cut_along cut_by cut_short remove_container remove_found
    luna_for_mac.Runtime.Stop.removed_after detach remove_first find remove put_sandbox
    put_container get_sandbox get_container delete_container make_container_key make_sandbox_key
    join_path clean of_container to_container of_sandbox to_sandbox find_field to_map_fields of_map
    to_texts_items of_texts seconds_duration terminate_container wait_loop track_exits track_exit
    gives_up
cuts_c1 = refl

remove_pod_sandbox-IsSwept_example :
    IsSwept memory [] "default_web"
      (remove_pod_sandbox memory world "default_web" (λ id. exits_soon)).1.store
unfolding cut_along
remove_pod_sandbox-IsSwept_example =
    remove_pod_sandbox-IsSwept memory memory-IsLawful memory-IsReliable (λ id. exits_soon)
      plain_kills world world here store-IsConsistent store-IsLinked "default_web" pod pod-plain
      pod_stored removes_pod

-- A container that the sandbox does not list.
abbrev world_with_c9 : World memory
world_with_c9 = record world { store = put_container memory store "c9" cnt }

pod_still_stored : get_sandbox memory world_with_c9.store "default_web" ≡ some pod
unfolding get_sandbox put_container put_sandbox find remove make_container_key make_sandbox_key
    join_path clean of_container of_sandbox to_sandbox find_field to_map_fields of_map
    to_texts_items of_texts
pod_still_stored = refl

c9_stored : get_container memory world_with_c9.store "c9" ≡ some cnt
unfolding get_container put_container put_sandbox find remove make_container_key make_sandbox_key
    join_path clean of_container to_container of_sandbox find_field to_map_fields of_map
    to_texts_items of_texts
c9_stored = refl

spares_c9 :
    IsStored memory "c9"
      (remove_pod_sandbox memory world_with_c9 "default_web" (λ id. exits_soon)).1.store
spares_c9 =
    remove_pod_sandbox_spares memory memory-IsLawful memory-IsReliable "c9" (refl, (refl, tt))
      (λ id. exits_soon) plain_kills world_with_c9 pod cnt pod-plain (c1-plain, tt) pod_still_stored
      refl c9_stored
