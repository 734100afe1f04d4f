-- ===== src/Runtime/Tests/Requests.antt =====
-- Requests to make sandboxes and containers, and to start them, on the store in memory.
use luna_for_mac.Base.{
  Bool, true, false, ◌≡◌, ◌≢◌, refl, Option, none, some, List, [], ◌∷◌, ◌++◌, ◌==◌, if◌then◌else◌,
  Lacks,
}
use luna_for_mac.Base.Int.{pos, int_eq}
use luna_for_mac.Path.{slash, is_path_allowed}
use luna_for_mac.Disk.Memory.{memory, memory-IsLawful, memory-IsReliable}
use luna_for_mac.Runtime.Sandbox
use luna_for_mac.Runtime.Records.{get_container, get_sandbox, make_pod_id}
use luna_for_mac.Runtime.Types.{World, ok, err, sandbox_ready, invalid_parameter, start_failed}
use luna_for_mac.Runtime.Create.{
  Surroundings, Request, Config, Metadata, PodMetadata, create_container, create_parts,
}
use luna_for_mac.Runtime.Create.Env.{make_env_list}
use luna_for_mac.Runtime.Create.Link.{Mount, link_mounts, symlink_to_container_path}
use luna_for_mac.Runtime.Create.Mounts.{DidSafely, create_container_safe}
use luna_for_mac.Runtime.Create.Created.{IsTyped, create_container_fails, create_container_succeeds}
use luna_for_mac.Runtime.Container
use luna_for_mac.Runtime.Container.{Container}
use luna_for_mac.Runtime.Stop.{stop_container}
use luna_for_mac.Runtime.Records.Laws.{get_container-put_container}
use luna_for_mac.Runtime.Records.{put_container}
use luna_for_mac.Runtime.Tests.{exits_soon}
use luna_for_mac.Runtime.Types.{container_running, container_created}
use luna_for_mac.Runtime.Create.Created.{requested}
use luna_for_mac.Runtime.Start.{Launch, running, start_container}
use luna_for_mac.Runtime.Start.Started.{
  Starts, start_container_leaks, start_container_succeeds, start_then_exit,
}
use luna_for_mac.Runtime.Terminate.{track_exit}
use luna_for_mac.Runtime.Terminate.Outcomes.{exited}
use luna_for_mac.Runtime.Pods.{PodConfig, new_sandbox, run_pod_sandbox, pod_sandbox_status}
use luna_for_mac.Runtime.Pods.Run.{pod_sandbox_status-run_pod_sandbox}
use luna_for_mac.Runtime.Tests.{
  pod, cnt, store, world, exit, c1-plain, pod-plain, cnt_stored, pod_stored, pod_absent,
  exit-IsPlain,
}

-- The source's test of `makeEnvList`.
test_make_env_list :
    make_env_list (("MY_ENV", "dummy") ∷ []) "mac"
    ≡ "MY_ENV=dummy" ∷ "HOSTNAME=mac" ∷ "TERM=xterm" ∷ "HOME=/"
      ∷ "PATH=/usr/local/sbin:/usr/local/bin:/usr/sbin:/usr/bin:/sbin:/bin" ∷ []
unfolding make_env_list
test_make_env_list = refl

-- Two mounts: one may be made, the other may not.
abbrev mounts : List Mount
mounts =
    (record { host_path = "/data/a"; container_path = "/var/a" })
    ∷ (record { host_path = "/data/b"; container_path = "/etc/../etc/hosts" })
    ∷ []

abbrev pub metadata : Metadata
metadata = record { name = "srv"; attempt = pos 1 }

abbrev pub config : Option Metadata → Config
config m = record {
  metadata = m;
  image = some "busybox";
  command = "/srv" ∷ [];
  args = [];
  working_dir = "";
  envs = [];
  mounts = mounts;
  labels = ("app", "web") ∷ [];
  annotations = [];
  log_path = "srv.log";
}

abbrev pub pod_metadata : PodMetadata
pod_metadata = record { name = "web"; namespace = "default"; uid = "u1"; attempt = pos 0 }

abbrev request : Option Metadata → Request
request m = record { config = some (config m); sandbox_metadata = some pod_metadata }

abbrev pub surroundings : Surroundings
surroundings = record {
  cid = "c2";
  now = pos 9;
  hostname = "mac";
  link_calls = λ n. record { remove_ok = true; mkdir_ok = true; symlink_ok = true };
}

create_container_safe_example :
    DidSafely memory world (create_container memory surroundings world (request (some metadata))).1
create_container_safe_example =
    create_container_safe memory surroundings world (request (some metadata))

no_metadata :
    (create_container memory surroundings world (request none)).0
    ≡ err (invalid_parameter "CreateContainerRequest.Config.Metadata")
unfolding create_container create_parts
no_metadata = refl

create_container_fails_example :
    (create_container memory surroundings world (request none)).1.store ≡ store
create_container_fails_example =
    create_container_fails memory surroundings world (request none)
      (invalid_parameter "CreateContainerRequest.Config.Metadata") no_metadata

mounts_linked : (link_mounts memory surroundings.link_calls world mounts).0 ≡ true
unfolding link_mounts symlink_to_container_path is_path_allowed
mounts_linked = refl

pub c2-plain : Lacks slash "c2"
c2-plain = (refl, (refl, tt))

pub typed : IsTyped surroundings (config (some metadata)) metadata
typed = record { attempt = refl; now = refl; labels = (refl, tt); annotations = tt }

create_container_succeeds_example :
    let c = requested surroundings (config (some metadata)) metadata "busybox" pod "default_web" in
    let (answer, v) = create_container memory surroundings world (request (some metadata)) in
    (answer ≡ ok "c2")
    × (get_container memory v.store "c2"
        ≡ (if "c2" == "c2" then some c else get_container memory store "c2"))
    × (get_sandbox memory v.store "c2" ≡ (
        if "default_web" == "c2"
        then some (record pod { containers = pod.containers ++ "c2" ∷ [] })
        else get_sandbox memory store "c2"))
unfolding make_pod_id
create_container_succeeds_example =
    create_container_succeeds memory memory-IsLawful memory-IsReliable surroundings world
      (config (some metadata)) metadata "busybox" pod_metadata pod "c2" typed refl refl
      mounts_linked pod_stored refl c2-plain pod-plain c2-plain

abbrev launch : Bool → Launch
launch log_ok = record {
  mkdir_ok = true;
  stdout_ok = true;
  stderr_ok = true;
  pid = some (pos 41);
  log_ok = log_ok;
  now = pos 10;
}

starts : (log_ok : Bool) → Starts (launch log_ok) (pos 41)
starts log_ok = record { stdout_ok = refl; stderr_ok = refl; has_pid = refl }

has_command : cnt.command ++ cnt.args ≢ []
has_command h = cc

start_container_succeeds_example :
    ((start_container memory (launch true) world "c1").0 ≡ ok tt)
    × (get_container memory (start_container memory (launch true) world "c1").1.store "c1" ≡ (
        if "c1" == "c1"
        then some (record cnt {
          log_path = "/logs/srv";
          pid = pos 41;
          state = container_running;
          exit_code = pos 0;
          started_at = pos 10;
        })
        else get_container memory store "c1"))
start_container_succeeds_example =
    start_container_succeeds memory memory-IsLawful memory-IsReliable (launch true) world "c1" "c1"
      cnt (pos 41) c1-plain c1-plain cnt_stored has_command (starts true) refl refl refl

abbrev created : Container
created = record cnt { pid = pos 0; started_at = pos 0; state = container_created }

created-Fits : Container.Fits created
created-Fits = record {
  attempt = refl;
  pid = refl;
  created_at = refl;
  started_at = refl;
  finished_at = refl;
  exit_code = refl;
  state = refl;
  labels = tt;
  annotations = (refl, tt);
}

-- A world whose container was not started yet.
abbrev created_world : World memory
created_world = record {
  store = put_container memory [] "c1" created;
  signals = [];
  file_ops = [];
  started = [];
}

created_stored : get_container memory created_world.store "c1" ≡ some created
created_stored =
    get_container-put_container memory memory-IsLawful memory-IsReliable [] "c1" "c1" c1-plain
      c1-plain created created-Fits

start_container_leaks_example :
    let (answer, v) = start_container memory (launch false) created_world "c1" in
    (answer ≡ err (start_failed "c1"))
    × (v.started ≡ [] ++ pos 41 ∷ [])
    × (v.signals ≡ [])
    × (v.store ≡ created_world.store)
    × (stop_container memory (pos 30) v "c1" exits_soon ≡ (ok tt, v))
start_container_leaks_example =
    start_container_leaks memory (launch false) created_world "c1" created (pos 41) (pos 30)
      exits_soon created_stored has_command (starts false) refl refl

start_then_exit_example :
    get_container memory
      (track_exit memory (start_container memory (launch true) world "c1").1.store exit)
      "c1"
    ≡ (if int_eq (pos 41) (pos 41)
        then some (exited exit (running (launch true) (pos 41) cnt))
        else some (running (launch true) (pos 41) cnt))
start_then_exit_example =
    start_then_exit memory memory-IsLawful memory-IsReliable (launch true) world cnt (pos 41) exit
      exit-IsPlain cnt_stored has_command (starts true) refl refl refl

abbrev pod_config : PodConfig
pod_config = record {
  metadata = some pod_metadata;
  hostname = "h";
  log_directory = "/logs";
  labels = [];
  annotations = [];
}

abbrev empty : World memory
empty = record { store = []; signals = []; file_ops = []; started = [] }

new_sandbox-Fits : Sandbox.Fits (new_sandbox (pos 5) pod_config pod_metadata "default_web")
new_sandbox-Fits = record {
  attempt = refl;
  created_at = refl;
  state = refl;
  labels = tt;
  annotations = tt;
}

pod_sandbox_status-run_pod_sandbox_example :
    ((run_pod_sandbox memory (pos 5) empty (some pod_config)).0 ≡ ok "default_web")
    × (pod_sandbox_status memory "10.0.0.1"
          (run_pod_sandbox memory (pos 5) empty (some pod_config)).1
          "default_web"
        ≡ ok (record {
          id = "u1";
          metadata = pod_metadata;
          state = sandbox_ready;
          created_at = pos 5;
          ip = "10.0.0.1";
          labels = [];
          annotations = [];
        }))
unfolding make_pod_id
pod_sandbox_status-run_pod_sandbox_example =
    pod_sandbox_status-run_pod_sandbox memory memory-IsLawful memory-IsReliable "10.0.0.1" (pos 5)
      empty pod_config pod_metadata refl pod-plain new_sandbox-Fits pod_absent
