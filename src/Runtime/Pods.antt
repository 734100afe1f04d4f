-- ===== src/Runtime/Pods.antt =====
-- The sandbox calls of procri/pkg/runtimeservice/podsandbox.go: RunPodSandbox, StopPodSandbox,
-- RemovePodSandbox and PodSandboxStatus.
pub mod Rounds
pub mod Closed
pub mod Again
pub mod Spared
pub mod Run
use luna_for_mac.Base.{
  String, Bool, true, false, Option, none, some, List, [], ◌∷◌, ◌++◌, ◌==◌, if◌then◌else◌,
}
use luna_for_mac.Base.Int.{ℤ, pos}
use luna_for_mac.Json.{TextMap}
use luna_for_mac.Disk.{Diskv}
use luna_for_mac.Runtime.Container.{Container}
use luna_for_mac.Runtime.Sandbox.{Sandbox}
use luna_for_mac.Runtime.Records.{
  make_pod_id, get_container, delete_container, get_sandbox, put_sandbox, delete_sandbox,
}
use luna_for_mac.Runtime.Types.{
  World, Outcome, ok, err, waiting, Error, missing_configuration, pod_exists, pod_not_found,
  sandbox_ready, sandbox_notready,
}
use luna_for_mac.Runtime.Create.{PodMetadata}
use luna_for_mac.Runtime.Terminate.{Kill, terminate_container}

-- cri.PodSandboxConfig, as far as RunPodSandbox reads it.
pub record PodConfig : Type 0 where
  pub metadata : Option PodMetadata
  pub hostname : String
  pub log_directory : String
  pub labels : TextMap
  pub annotations : TextMap

abbrev pub new_sandbox : ℤ → PodConfig → PodMetadata → String → Sandbox
new_sandbox now config metadata pod_id = record {
  id = pod_id;
  name = metadata.name;
  namespace = metadata.namespace;
  uid = metadata.uid;
  attempt = metadata.attempt;
  created_at = now;
  hostname = config.hostname;
  log_directory = config.log_directory;
  state = sandbox_ready;
  labels = config.labels;
  annotations = config.annotations;
  containers = [];
}

-- cri.PodSandboxStatus. Its id is the user's id of the sandbox.
pub record PodStatus : Type 0 where
  pub id : String
  pub metadata : PodMetadata
  pub state : ℤ
  pub created_at : ℤ
  pub ip : String
  pub labels : TextMap
  pub annotations : TextMap

abbrev pub status_of : String → Sandbox → PodStatus
status_of ip_address pod = record {
  id = pod.uid;
  metadata = record {
    name = pod.name;
    namespace = pod.namespace;
    uid = pod.uid;
    attempt = pod.attempt;
  };
  state = pod.state;
  created_at = pod.created_at;
  ip = ip_address;
  labels = pod.labels;
  annotations = pod.annotations;
}

-- The timeout of a termination, in seconds.
abbrev pub timeout_of : Bool → ℤ
timeout_of force = if force then pos 0 else pos 30

module _ (D : Diskv) where
  unfoldable pub run_pod : ℤ → World D → PodConfig → PodMetadata → Outcome String × World D
  run_pod now w config metadata =
      let pod_id = make_pod_id metadata.namespace metadata.name in
      elim (get_sandbox D w.store pod_id) [
        | some pod ↦ (err (pod_exists pod_id), w)
        | none ↦ (
          ok pod_id,
          record w {
            store = put_sandbox D w.store pod_id (new_sandbox now config metadata pod_id);
          },
        )
      ]

  -- Answers with the id of the sandbox.
  unfoldable pub run_pod_sandbox : ℤ → World D → Option PodConfig → Outcome String × World D
  run_pod_sandbox now w none = (err missing_configuration, w)
  run_pod_sandbox now w (some config) = elim config.metadata [
    | none ↦ (err missing_configuration, w)
    | some metadata ↦ run_pod now w config metadata
  ]

  unfoldable pub closed : String → Outcome (Unit {0}) × World D → Outcome (Unit {0}) × World D
  closed id (ok _, v) = (ok tt, record v { store = delete_container D v.store id })
  closed id (err e, v) = (err e, v)
  closed id (waiting, v) = (waiting, v)

  -- One round of the loop, before the sandbox's list is shortened.
  unfoldable pub close_container :
      Bool → World D → String → Kill → Option Container → Outcome (Unit {0}) × World D
  close_container force w id k none = (ok tt, w)
  close_container force w id k (some c) = closed id (terminate_container D (timeout_of force) w c k)

  abbrev pub put_list : World D → Sandbox → List String → World D
  put_list w pod ids = record w {
    store = put_sandbox D w.store pod.id (record pod { containers = ids });
  }

  -- `terminateSandboxContainers`: the loop over the copy of the sandbox's list, with the `kill` of
  -- each container, and what follows the loop.
  unfoldable pub close_all :
      Bool → World D → Sandbox → List String → (String → Kill) → Outcome (Unit {0}) × World D
  close_all force w pod [] kills = (
    ok tt,
    record w {
      store =
          put_sandbox D w.store pod.id (record pod { containers = []; state = sandbox_notready });
    },
  )
  close_all force w pod (id ∷ ids) kills =
      let (r, v) = close_container force w id (kills id) (get_container D w.store id) in
      elim r [
        | ok _ ↦ close_all force (put_list v pod ids) pod ids kills
        | err e ↦ (err e, v)
        | waiting ↦ (waiting, v)
      ]

  unfoldable pub terminate_sandbox_containers :
      Bool → World D → Sandbox → (String → Kill) → Outcome (Unit {0}) × World D
  terminate_sandbox_containers force w pod kills = close_all force w pod pod.containers kills

  unfoldable pub stop_pod_sandbox :
      World D → String → (String → Kill) → Outcome (Unit {0}) × World D
  stop_pod_sandbox w pod_id kills = elim (get_sandbox D w.store pod_id) [
    | none ↦ (ok tt, w)
    | some pod ↦ terminate_sandbox_containers false w pod kills
  ]

  unfoldable pub removed_after :
      String → Outcome (Unit {0}) × World D → Outcome (Unit {0}) × World D
  removed_after pod_id (ok _, v) = (ok tt, record v { store = delete_sandbox D v.store pod_id })
  removed_after pod_id (err e, v) = (err e, v)
  removed_after pod_id (waiting, v) = (waiting, v)

  -- `removeSandbox` and RemovePodSandbox.
  unfoldable pub remove_pod_sandbox :
      World D → String → (String → Kill) → Outcome (Unit {0}) × World D
  remove_pod_sandbox w pod_id kills = elim (get_sandbox D w.store pod_id) [
    | none ↦ (ok tt, w)
    | some pod ↦ removed_after pod_id (terminate_sandbox_containers true w pod kills)
  ]

  unfoldable pub pod_sandbox_status : String → World D → String → Outcome PodStatus
  pod_sandbox_status ip_address w pod_id = elim (get_sandbox D w.store pod_id) [
    | none ↦ err pod_not_found
    | some pod ↦ ok (status_of ip_address pod)
  ]
