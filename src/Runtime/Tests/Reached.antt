-- ===== src/Runtime/Tests/Reached.antt =====
-- States that the calls of the service reach, on the store in memory.
use mathlib.Core.Option.{some-injective}
use luna_for_mac.Base.{
  true, false, sym, ap, ◌∙◌, arith, eq_iff, contains, Lacks, String, ◌≡◌, refl, some, none, [], ◌∷◌,
  keep, inl, inr,
}
use luna_for_mac.Base.Int.{pos}
use luna_for_mac.Path.{slash, clean, join_path}
use luna_for_mac.Json.{find_field, to_map_fields, of_map, to_texts_items, of_texts}
use luna_for_mac.Disk.Memory.{
  erase_if, find, remove, memory, memory-IsLawful, memory-IsReliable, memory-IsListing,
}
use luna_for_mac.Runtime.Records.Laws.{get_container-put_container}
use luna_for_mac.Runtime.Container.{Container, of_container, to_container}
use luna_for_mac.Runtime.Sandbox.{of_sandbox, to_sandbox}
use luna_for_mac.Runtime.Records.{
  get_container, put_container, get_sandbox, put_sandbox, delete_container, list_containers,
  make_container_key, make_sandbox_key,
}
use luna_for_mac.Runtime.Types.{World, ok, container_exited}
use luna_for_mac.Runtime.Duration.{seconds_duration}
use luna_for_mac.Runtime.Terminate.{track_exit, track_exits, wait_loop, terminate_container}
use luna_for_mac.Runtime.Terminate.Returns.{Returns, Owns, terminate_container-Returns}
use luna_for_mac.Runtime.Stop.{remove_container, remove_found, detach, remove_first}
use luna_for_mac.Runtime.Service.Unlisted.{remove_container_unlists}
use luna_for_mac.Runtime.Pods.{
  stop_pod_sandbox, terminate_sandbox_containers, close_all, close_container, closed,
}
use luna_for_mac.Runtime.Pods.Again.{ChangesNothing, stop_pod_sandbox-ChangesNothing}
use luna_for_mac.Runtime.Listing.{ContainerStatus, container_status}
use luna_for_mac.Runtime.Listing.Filters.{selects}
use luna_for_mac.Runtime.Service.{
  IsSound, IsSoundPod, IsConsistent, Reach, here, next, exit, remove as removes_step,
}
use luna_for_mac.Runtime.Service.Store.{put_container-IsConsistent, put_sandbox-IsConsistent}
use luna_for_mac.Runtime.Service.Reached.{
  nothing-IsConsistent, Reach-IsConsistent, container_status-Reach,
}
use luna_for_mac.Runtime.Stats.{StatsFilter, list_container_stats}
use luna_for_mac.Runtime.Stats.Listed.{stats_in_order, stateless, list_container_stats_lem}
use luna_for_mac.Runtime.Tests.{
  pod, cnt, pod-Fits, cnt-Fits, store, world, c1-plain, pod-plain, exit as c1_exit, exit-IsPlain,
  exits_soon, plain_kills, cnt_stored, pod_stored,
}

pub no_container : (k : String) → get_container memory [] k ≡ none
unfolding get_container find
no_container k = refl

pub no_sandbox : (k : String) → get_sandbox memory [] k ≡ none
unfolding get_sandbox find
no_sandbox k = refl

pub cnt-IsSound : IsSound "c1" cnt
cnt-IsSound = record {
  own_id = refl;
  plain_pod = pod-plain;
  has_process = λ running. refl;
  finish_unset = refl;
  known_state = inr (inl refl);
}

pod-IsSoundPod : IsSoundPod "default_web" pod
pod-IsSoundPod = record {
  own_id = refl;
  plain = (c1-plain, tt);
  distinct = (refl, tt);
  known_state = inl refl;
}

-- The sandbox of the store lists the container of the store alone.
listed_by_pod :
    (j : String) (a : Container)
    → Lacks slash j
    → get_container memory (put_container memory [] "c1" cnt) j ≡ some a
    → contains pod.containers j ≡ true
    → a.pod_id ≡ "default_web"
listed_by_pod j a q g l =
    let only : "c1" ≡ j = (eq_iff "c1" j).0 (ground arith) in
    let there =
      get_container-put_container memory memory-IsLawful memory-IsReliable [] "c1" "c1" c1-plain
        c1-plain cnt cnt-Fits in
    let same : some a ≡ some cnt =
      sym g ∙ ap (get_container memory (put_container memory [] "c1" cnt)) (sym only) ∙ there in
    ap (λ (d : Container). d.pod_id) (some-injective _ _ same)

pub store-IsConsistent : IsConsistent memory store
store-IsConsistent =
    put_sandbox-IsConsistent memory memory-IsLawful memory-IsReliable
      (put_container memory [] "c1" cnt)
      (put_container-IsConsistent memory memory-IsLawful memory-IsReliable []
        (nothing-IsConsistent memory [] no_container no_sandbox) "c1" c1-plain cnt cnt-Fits
        cnt-IsSound (λ k p q g l. cc (no_sandbox k)))
      "default_web" pod-plain pod pod-Fits pod-IsSoundPod listed_by_pod

-- The process exits, and then the container is removed.
abbrev pub exited_world : World memory
exited_world = record world { store = track_exit memory store c1_exit }

pub exits : Reach memory world exited_world
exits = next here (exit c1_exit exit-IsPlain)

removes : Reach memory world (remove_container memory exited_world "c1" exits_soon).1
removes = next exits (removes_step "c1" exits_soon c1-plain (plain_kills "c1"))

Reach-IsConsistent_example :
    IsConsistent memory (remove_container memory exited_world "c1" exits_soon).1.store
Reach-IsConsistent_example =
    Reach-IsConsistent memory memory-IsLawful memory-IsReliable removes store-IsConsistent

abbrev exited_status : ContainerStatus
exited_status = record {
  id = "c1";
  metadata = record { name = "srv"; attempt = pos 0 };
  state = container_exited;
  created_at = pos 7;
  started_at = pos 8;
  finished_at = pos 0;
  exit_code = pos 3;
  image = "busybox";
  image_ref = "busybox";
  labels = [];
  annotations = ("k", "v") ∷ [];
  log_path = "/logs/srv";
}

has_exited_status : container_status memory exited_world.store "c1" ≡ ok exited_status
unfolding container_status get_container put_container put_sandbox track_exit find remove
    make_container_key make_sandbox_key join_path clean of_container to_container of_sandbox
    to_sandbox find_field to_map_fields of_map to_texts_items of_texts
has_exited_status = refl

container_status-Reach_example : exited_status.finished_at ≡ pos 0
container_status-Reach_example =
    container_status-Reach memory memory-IsLawful memory-IsReliable world exited_world exits
      store-IsConsistent "c1" exited_status c1-plain has_exited_status

abbrev of_pod : StatsFilter
of_pod = record { id = ""; pod_sandbox_id = "default_web"; label_selector = [] }

list_container_stats_lem_example :
    list_container_stats memory store (λ n. pos n) (some of_pod)
    ≡ some (
        stats_in_order
          (λ n. pos n)
          (keep (selects (stateless of_pod)) (list_containers memory store)))
list_container_stats_lem_example =
    list_container_stats_lem memory memory-IsListing store (λ n. pos n) of_pod store-IsConsistent

cnt-Owns : Owns cnt.pid (get_container memory store "c1")
cnt-Owns = rw cnt_stored (inl refl)

terminate_container-Returns_example :
    Returns (terminate_container memory (pos 30) world cnt exits_soon).0
terminate_container-Returns_example =
    terminate_container-Returns memory memory-IsLawful memory-IsReliable cnt c1-plain (pos 30) world
      exits_soon (plain_kills "c1") cnt-Owns (inr (inr (inr (inl (c1_exit, inl refl, refl, refl)))))

after_removal :
    get_sandbox memory (remove_container memory world "c1" exits_soon).1.store "default_web"
    ≡ some (record pod { containers = [] })
unfolding remove_container remove_found luna_for_mac.Runtime.Stop.removed_after detach remove_first
    find remove put_sandbox put_container get_sandbox get_container delete_container
    make_container_key make_sandbox_key join_path clean of_container to_container of_sandbox
    to_sandbox find_field to_map_fields of_map to_texts_items of_texts seconds_duration
    terminate_container wait_loop track_exits track_exit erase_if
after_removal = refl

remove_container_unlists_example : contains [] "c1" ≡ false
remove_container_unlists_example =
    remove_container_unlists memory memory-IsLawful memory-IsReliable world "c1" "default_web"
      exits_soon cnt (record pod { containers = [] }) c1-plain pod-plain (plain_kills "c1")
      store-IsConsistent cnt_stored after_removal

stops_pod : (stop_pod_sandbox memory world "default_web" (λ id. exits_soon)).0 ≡ ok tt
unfolding stop_pod_sandbox terminate_sandbox_containers close_all close_container closed find remove
    erase_if put_sandbox put_container get_sandbox get_container delete_container make_container_key
    make_sandbox_key join_path clean of_container to_container of_sandbox to_sandbox find_field
    to_map_fields of_map to_texts_items of_texts seconds_duration terminate_container wait_loop
    track_exits track_exit
stops_pod = refl

stop_pod_sandbox-ChangesNothing_example :
    ChangesNothing memory (stop_pod_sandbox memory world "default_web" (λ id. exits_soon)).1 (
      stop_pod_sandbox memory
        (stop_pod_sandbox memory world "default_web" (λ id. exits_soon)).1
        "default_web"
        (λ id. exits_soon))
stop_pod_sandbox-ChangesNothing_example =
    stop_pod_sandbox-ChangesNothing memory memory-IsLawful memory-IsReliable world pod
      (λ id. exits_soon) (λ id. exits_soon) plain_kills pod-plain (c1-plain, tt) pod_stored
      stops_pod
