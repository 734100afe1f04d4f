-- ===== src/Runtime/Tests/Overlap.antt =====
-- Calls of CreateContainer that overlap, on the store in memory.
use luna_for_mac.Base.{
  String, true, false, ◌≡◌, refl, some, none, [], ◌∷◌, ◌++◌, ◌==◌, All, Lacks, contains,
}
use luna_for_mac.Path.{is_path_allowed, clean, join_path}
use luna_for_mac.Json.{find_field, to_map_fields, of_map, to_texts_items, of_texts}
use luna_for_mac.Disk.Memory.{erase_if, find, remove, memory, memory-IsLawful, memory-IsReliable}
use luna_for_mac.Runtime.Container.{of_container, to_container}
use luna_for_mac.Runtime.Sandbox.{of_sandbox, to_sandbox}
use luna_for_mac.Runtime.Records.{
  make_pod_id, get_container, put_container, get_sandbox, put_sandbox, delete_container,
  delete_sandbox, make_container_key, make_sandbox_key,
}
use luna_for_mac.Runtime.Types.{World, ok}
use luna_for_mac.Runtime.Create.{Surroundings, Request, create_container}
use luna_for_mac.Runtime.Create.Link.{link_mounts, symlink_to_container_path}
use luna_for_mac.Runtime.Create.Created.{IsTyped}
use luna_for_mac.Runtime.Duration.{seconds_duration}
use luna_for_mac.Runtime.Terminate.{track_exit, track_exits, wait_loop, terminate_container}
use luna_for_mac.Runtime.Pods.{
  remove_pod_sandbox, terminate_sandbox_containers, close_all, close_container, closed,
}
use luna_for_mac.Runtime.Pods
use luna_for_mac.Runtime.Pods.Rounds.{IsAbsent}
use luna_for_mac.Runtime.Terminate.Stored.{IsStored}
use luna_for_mac.Runtime.Overlap.{Complete, pod_of, made, answered, advance, take_turns}
use luna_for_mac.Runtime.Overlap.Calls.{answer, container_of, create_container_parts}
use luna_for_mac.Runtime.Overlap.Lost.{
  both_at_once, one_by_one, Pair, overlapping_creations_lose, lost_container_stays,
  creations_one_by_one_list,
}
use luna_for_mac.Runtime.Overlap.Revived.{removed_pod_comes_back}
use luna_for_mac.Runtime.Tests.{
  pod, world, c1-plain, pod-plain, exits_soon, plain_kills, pod_stored,
}
use luna_for_mac.Runtime.Tests.Requests.{
  metadata, config, pod_metadata, surroundings, c2-plain, typed,
}

abbrev request : Surroundings → Complete
request o = record {
  surroundings = o;
  config = config (some metadata);
  metadata = metadata;
  image = "busybox";
  sandbox = pod_metadata;
}

abbrev pub a : Complete
a = request surroundings

abbrev b : Complete
b = request (record surroundings { cid = "c3" })

home_of_a : pod_of a ≡ "default_web"
unfolding make_pod_id
home_of_a = refl

b-IsTyped : IsTyped b.surroundings b.config b.metadata
b-IsTyped = record { attempt = refl; now = refl; labels = (refl, tt); annotations = tt }

links : (v : World memory) → (link_mounts memory surroundings.link_calls v a.config.mounts).0 ≡ true
unfolding link_mounts symlink_to_container_path is_path_allowed
links v = refl

a_and_b : Pair memory world a b pod
unfolding make_pod_id
a_and_b = record {
  typed = typed;
  typed_too = b-IsTyped;
  linked = links world;
  linked_too = links;
  found = pod_stored;
  same_pod = refl;
  ready = refl;
  plain = c2-plain;
  plain_too = (refl, (refl, tt));
  plain_pod = pod-plain;
  apart = refl;
  unlisted = refl;
}

one_call_in_parts :
    let req : Request = record { config = some a.config; sandbox_metadata = some pod_metadata } in
    let (call, w') = advance memory world (made a) in
    advance memory w' call ≡ answer memory (create_container memory surroundings world req)
one_call_in_parts = create_container_parts memory world a refl refl

overlapping_creations_lose_example :
    let ((one, other), v) = take_turns memory world (made a) (made b) both_at_once in
    (one ≡ answered (ok "c2"))
    × (other ≡ answered (ok "c3"))
    × (get_container memory v.store "c2" ≡ some (container_of memory a pod))
    × (get_container memory v.store "c3" ≡ some (container_of memory b pod))
    × (get_sandbox memory v.store (pod_of a) ≡ some (record pod { containers = "c1" ∷ "c3" ∷ [] }))
    × (contains ("c1" ∷ "c3" ∷ []) "c2" ≡ false)
overlapping_creations_lose_example =
    overlapping_creations_lose memory memory-IsLawful memory-IsReliable world a b pod a_and_b

lost_container_stays_example :
    let (_, v) = take_turns memory world (made a) (made b) both_at_once in
    IsStored memory "c2" (remove_pod_sandbox memory v "default_web" (λ id. exits_soon)).1.store
lost_container_stays_example =
    lost_container_stays memory memory-IsLawful memory-IsReliable world a b pod a_and_b
      (λ id. exits_soon) plain_kills (luna_for_mac.Base.sym home_of_a) (c1-plain, tt)

one_by_one_lists_both :
    let ((one, other), v) = take_turns memory world (made a) (made b) one_by_one in
    (one ≡ answered (ok "c2"))
    × (other ≡ answered (ok "c3"))
    × (get_sandbox memory v.store (pod_of a)
        ≡ some (record pod { containers = "c1" ∷ "c2" ∷ "c3" ∷ [] }))
one_by_one_lists_both =
    creations_one_by_one_list memory memory-IsLawful memory-IsReliable world a b pod a_and_b

removes_meanwhile :
    (remove_pod_sandbox memory (advance memory world (made a)).1 "default_web" (λ id. exits_soon)).0
    ≡ ok tt
unfolding advance link_mounts symlink_to_container_path is_path_allowed remove_pod_sandbox
    terminate_sandbox_containers close_all close_container closed
    luna_for_mac.Runtime.Pods.removed_after delete_sandbox find remove erase_if put_sandbox
    put_container get_sandbox get_container delete_container make_container_key make_sandbox_key
    join_path clean of_container to_container of_sandbox to_sandbox find_field to_map_fields of_map
    to_texts_items of_texts seconds_duration terminate_container wait_loop track_exits track_exit
removes_meanwhile = refl

removed_pod_comes_back_example :
    let (call, w1) = advance memory world (made a) in
    let v = (remove_pod_sandbox memory w1 "default_web" (λ id. exits_soon)).1 in
    let (call', u) = advance memory v call in
    (get_sandbox memory v.store "default_web" ≡ none)
    × (call' ≡ answered (ok "c2"))
    × (get_sandbox memory u.store "default_web"
        ≡ some (record pod { containers = "c1" ∷ "c2" ∷ [] }))
    × All (IsAbsent memory u.store) ("c1" ∷ [])
removed_pod_comes_back_example =
    removed_pod_comes_back memory memory-IsLawful memory-IsReliable world a pod (λ id. exits_soon)
      plain_kills typed (links world) pod_stored home_of_a refl c2-plain pod-plain (c1-plain, tt)
      refl removes_meanwhile
