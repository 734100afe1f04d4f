-- ===== src/Runtime/Tests.antt =====
-- The runtime service on a store in memory: the theorems at a sandbox with one container.
mod Requests
mod Listed
mod Reached
mod Output
mod Linked
mod Overlap
mod Pool
use luna_for_mac.Base.{
  ℕ, String, Bool, true, false, ◌≡◌, ◌≢◌, refl, ◌∙◌, Option, none, some, List, [], ◌∷◌, ◌++◌, ◌==◌,
  ◌⊎◌, if◌then◌else◌, All, Lacks, contains, map, arith,
}
use luna_for_mac.Base.Int.{ℤ, pos, negsuc, int_eq}
use luna_for_mac.Path.{slash, clean, join_path}
use luna_for_mac.Json.{find_field, to_map_fields, of_map, to_texts_items, of_texts}
use luna_for_mac.Disk.Memory.{Files, find, remove, memory, memory-IsLawful, memory-IsReliable}
use luna_for_mac.Runtime.Container
use luna_for_mac.Runtime.Container.{
  Container, of_container, to_container, to_container-of_container,
}
use luna_for_mac.Runtime.Sandbox
use luna_for_mac.Runtime.Sandbox.{Sandbox, of_sandbox, to_sandbox, to_sandbox-of_sandbox}
use luna_for_mac.Runtime.Records.{
  get_container, put_container, get_sandbox, put_sandbox, delete_container, delete_sandbox,
  make_pod_id, make_container_key, make_sandbox_key,
}
use luna_for_mac.Runtime.Records.Laws.{
  get_container-Fits, get_container-put_container, get_container-put_sandbox,
  get_sandbox-put_sandbox,
}
use luna_for_mac.Runtime.Types.{
  World, FileOp, Outcome, ok, err, waiting, container_created, container_running, sandbox_ready,
  sigterm, pod_exists, start_failed, cancelled,
}
use luna_for_mac.Runtime.Terminate.{
  Exit, Kill, tick, context_done, track_exit, track_exits, wait_loop, signal, target,
  terminate_container, OnTime,
}
use luna_for_mac.Runtime.Records.Keys.{container_key_eq, container_sandbox_key_eq}
use luna_for_mac.Runtime.Duration.{seconds_duration}
use luna_for_mac.Runtime.Terminate.Grace.{terminate_never_kills}
use luna_for_mac.Runtime.Terminate.Outcomes.{IsPlainExit, PlainWakes, exited}
use luna_for_mac.Runtime.Terminate.Tracked.{tracked, get_container-track_exit}
use luna_for_mac.Runtime.Pods.{
  stop_pod_sandbox, remove_pod_sandbox, terminate_sandbox_containers, close_all, close_container,
  closed,
}
use luna_for_mac.Runtime.Pods.Rounds.{Closes, IsAbsent}
use luna_for_mac.Runtime.Pods.Closed.{stop_pod_sandbox-Closes, remove_pod_sandbox_removes}
use luna_for_mac.Runtime.Stop.{remove_container, remove_first, remove_found, detach}
use luna_for_mac.Runtime.Stop.Removed.{remove_container_removes}

-- The store holds a sandbox that lists one running container.
abbrev pub pod : Sandbox
pod = record {
  id = "default_web";
  name = "web";
  namespace = "default";
  uid = "u1";
  attempt = pos 0;
  created_at = pos 7;
  hostname = "h";
  log_directory = "/logs";
  state = sandbox_ready;
  labels = ("app", "web") ∷ [];
  annotations = [];
  containers = "c1" ∷ [];
}

abbrev pub cnt : Container
cnt = record {
  id = "c1";
  pod_id = "default_web";
  name = "srv";
  attempt = pos 0;
  args = "-v" ∷ [];
  command = "/srv" ∷ [];
  env = "HOME=/" ∷ [];
  working_dir = "/";
  log_path = "/logs/srv";
  pid = pos 41;
  created_at = pos 7;
  started_at = pos 8;
  finished_at = pos 0;
  exit_code = pos 0;
  image = "busybox";
  state = container_running;
  labels = [];
  annotations = ("k", "v") ∷ [];
}

pub pod-Fits : Sandbox.Fits pod
pod-Fits = record {
  attempt = refl;
  created_at = refl;
  state = refl;
  labels = (refl, tt);
  annotations = tt;
}

pub cnt-Fits : Container.Fits cnt
cnt-Fits = record {
  attempt = refl;
  pid = refl;
  created_at = refl;
  started_at = refl;
  finished_at = refl;
  exit_code = refl;
  state = refl;
  labels = tt;
  annotations = (refl, tt);
}

abbrev pub store : Files
store = put_sandbox memory (put_container memory [] "c1" cnt) "default_web" pod

abbrev pub world : World memory
world = record { store = store; signals = []; file_ops = []; started = [] }

pub c1-plain : Lacks slash "c1"
c1-plain = (refl, (refl, tt))

pub pod-plain : Lacks slash "default_web"
pod-plain =
    (refl, (refl, (refl, (refl, (refl, (refl, (refl, (refl, (refl, (refl, (refl, tt)))))))))))

pub cnt_stored : get_container memory store "c1" ≡ some cnt
cnt_stored =
    get_container-put_sandbox memory memory-IsLawful memory-IsReliable
      (put_container memory [] "c1" cnt) "default_web" "c1" pod-plain c1-plain pod
    ∙ get_container-put_container memory memory-IsLawful memory-IsReliable [] "c1" "c1" c1-plain
        c1-plain cnt cnt-Fits

pub pod_stored : get_sandbox memory store "default_web" ≡ some pod
pod_stored =
    get_sandbox-put_sandbox memory memory-IsLawful memory-IsReliable
      (put_container memory [] "c1" cnt) "default_web" "default_web" pod-plain pod-plain pod
      pod-Fits

pub pod_absent : get_sandbox memory [] "default_web" ≡ none
unfolding get_sandbox find
pod_absent = refl

-- The process of the container exits with code 3, at the first tick.
abbrev pub exit : Exit
exit = record { container_id = "c1"; pid = pos 41; exit_code = pos 3 }

pub exit-IsPlain : IsPlainExit exit
exit-IsPlain = record { plain = c1-plain; typed = refl }

abbrev pub exits_soon : Kill
exits_soon = record {
  process_found = true;
  process_group = some (pos 40);
  term_delivered = true;
  wakes = (500000000, false, tick []) ∷ (1000000000, false, tick (exit ∷ [])) ∷ [];
}

terminate_never_kills_example :
    (terminate_container memory (pos 30) world cnt exits_soon).1.signals
    ≡ [] ++ (target memory (pos 41) (some (pos 40)), sigterm) ∷ []
terminate_never_kills_example =
    terminate_never_kills memory 29 world cnt exits_soon refl refl refl refl (omega arith)
      (omega arith, omega arith, (omega arith, omega arith, tt)) tt

pub plain_kills : (id : String) → PlainWakes exits_soon.wakes
plain_kills id = (tt, ((exit-IsPlain, tt), tt))

stop_pod_sandbox-Closes_example :
    Closes memory memory-IsLawful memory-IsReliable pod pod.containers
      (stop_pod_sandbox memory world "default_web" (λ id. exits_soon))
stop_pod_sandbox-Closes_example =
    stop_pod_sandbox-Closes memory memory-IsLawful memory-IsReliable (λ id. exits_soon) plain_kills
      world pod pod-plain (c1-plain, tt) pod_stored

pub removes_pod : (remove_pod_sandbox memory world "default_web" (λ id. exits_soon)).0 ≡ ok tt
unfolding remove_pod_sandbox terminate_sandbox_containers close_all close_container closed
    luna_for_mac.Runtime.Pods.removed_after delete_sandbox find remove put_sandbox put_container
    get_sandbox get_container delete_container make_container_key make_sandbox_key join_path clean
    of_container to_container of_sandbox to_sandbox find_field to_map_fields of_map to_texts_items
    of_texts seconds_duration terminate_container wait_loop track_exits track_exit
removes_pod = refl

remove_pod_sandbox_removes_example :
    let v = (remove_pod_sandbox memory world "default_web" (λ id. exits_soon)).1 in
    (get_sandbox memory v.store "default_web" ≡ none) × All (IsAbsent memory v.store) ("c1" ∷ [])
remove_pod_sandbox_removes_example =
    remove_pod_sandbox_removes memory memory-IsLawful memory-IsReliable (λ id. exits_soon)
      plain_kills world pod pod-plain (c1-plain, tt) pod_stored removes_pod

removes_container : (remove_container memory world "c1" exits_soon).0 ≡ ok (some tt)
unfolding remove_container remove_found luna_for_mac.Runtime.Stop.removed_after detach remove_first
    find remove put_sandbox put_container get_sandbox get_container delete_container
    make_container_key make_sandbox_key join_path clean of_container to_container of_sandbox
    to_sandbox find_field to_map_fields of_map to_texts_items of_texts seconds_duration
    terminate_container wait_loop track_exits track_exit
removes_container = refl

remove_container_removes_example :
    get_container memory (remove_container memory world "c1" exits_soon).1.store "c1" ≡ none
remove_container_removes_example =
    remove_container_removes memory memory-IsLawful memory-IsReliable world "c1" exits_soon
      (some tt) c1-plain removes_container

-- The caller has given up.
abbrev pub given_up : Kill
given_up = record {
  process_found = true;
  process_group = none;
  term_delivered = true;
  wakes = (0, false, context_done) ∷ [];
}
