-- ===== src/Runtime/Create.antt =====
-- CreateContainer of procri/pkg/runtimeservice/container.go, with `symlinkToContainerPath` and
-- `makeEnvList`.
pub mod Paths
pub mod Env
pub mod Link
pub mod Mounts
pub mod Created
use luna_for_mac.Base.{
  ℕ, String, Bool, true, false, not, Option, none, some, List, [], ◌∷◌, ◌++◌, map, ◌==◌, ◌||◌,
  if◌then◌else◌, ◌<>◌, contains_text,
}
use luna_for_mac.Base.Int.{ℤ, pos, int_eq}
use luna_for_mac.Path.{clean, join_path_elements, is_path_allowed}
use luna_for_mac.Json.{TextMap}
use Env.{make_env_list}
use Link.{Mount, LinkCalls, link_mounts}
use luna_for_mac.Disk.{Diskv}
use luna_for_mac.Runtime.Container.{Container}
use luna_for_mac.Runtime.Sandbox.{Sandbox}
use luna_for_mac.Runtime.Records.{make_pod_id, get_sandbox, put_container, put_sandbox}
use luna_for_mac.Runtime.Types.{
  World, FileOp, removed, made_dir, linked, Outcome, ok, err, Error, invalid_parameter,
  symlink_failed, container_created, sandbox_ready,
}

-- cri.ContainerMetadata and cri.PodSandboxMetadata
pub record Metadata : Type 0 where
  pub name : String
  pub attempt : ℤ

pub record PodMetadata : Type 0 where
  pub name : String
  pub namespace : String
  pub uid : String
  pub attempt : ℤ

-- cri.ContainerConfig, as far as CreateContainer reads it. A nil pointer is `none`.
pub record Config : Type 0 where
  pub metadata : Option Metadata
  pub image : Option String
  pub command : List String
  pub args : List String
  pub working_dir : String
  pub envs : TextMap
  pub mounts : List Mount
  pub labels : TextMap
  pub annotations : TextMap
  pub log_path : String

-- cri.CreateContainerRequest: of the sandbox's configuration only the metadata is read, so that a
-- nil configuration and nil metadata are both `none`.
pub record Request : Type 0 where
  pub config : Option Config
  pub sandbox_metadata : Option PodMetadata

-- What the handler takes from outside: the new id, the clock, the host's name, and the file system.
pub record Surroundings : Type 0 where
  pub cid : String
  pub now : ℤ
  pub hostname : String
  pub link_calls : ℕ → LinkCalls

module _ (D : Diskv) where
  abbrev pub log_path_in : Sandbox → String → String
  log_path_in pod log_path =
      if log_path == "" then "" else join_path_elements pod.log_directory log_path

  abbrev pub new_container :
      Surroundings → Config → Metadata → String → Sandbox → String → Container
  new_container o config metadata image pod pod_id = record {
    id = o.cid;
    pod_id = pod_id;
    name = metadata.name;
    attempt = metadata.attempt;
    args = config.args;
    command = config.command;
    env = make_env_list config.envs o.hostname;
    working_dir = config.working_dir;
    log_path = log_path_in pod config.log_path;
    pid = pos 0;
    created_at = o.now;
    started_at = pos 0;
    finished_at = pos 0;
    exit_code = pos 0;
    image = image;
    state = container_created;
    labels = config.labels;
    annotations = config.annotations;
  }

  -- From the look-up of the sandbox on.
  unfoldable pub create_in_pod :
      Surroundings
      → World D
      → Config
      → Metadata
      → String
      → String
      → Option Sandbox
      → Outcome String × World D
  create_in_pod o w config metadata image pod_id none =
      (err (invalid_parameter ("CreateContainer: no such pod sandbox " <> pod_id)), w)
  create_in_pod o w config metadata image pod_id (some pod) =
      if not (int_eq pod.state sandbox_ready)
      then (err (invalid_parameter ("CreateContainer sandbox " <> (pod_id <> " is not ready"))), w)
      else let c = new_container o config metadata image pod pod_id in
        let s = put_container D w.store o.cid c in
        let pod' = record pod { containers = pod.containers ++ o.cid ∷ [] } in
        (ok o.cid, record w { store = put_sandbox D s pod_id pod' })

  unfoldable pub create_checked :
      Surroundings → World D → Config → Metadata → String → PodMetadata → Outcome String × World D
  create_checked o w config metadata image sandbox =
      let pod_id = make_pod_id sandbox.namespace sandbox.name in
      let (fine, w') = link_mounts D o.link_calls w config.mounts in
      if fine
      then create_in_pod o w' config metadata image pod_id (get_sandbox D w'.store pod_id)
      else (err symlink_failed, w')

  -- The checks of the configuration's pointers.
  unfoldable pub create_parts :
      Surroundings
      → World D
      → Config
      → Option Metadata
      → Option String
      → Option PodMetadata
      → Outcome String × World D
  create_parts o w config none image sandbox =
      (err (invalid_parameter "CreateContainerRequest.Config.Metadata"), w)
  create_parts o w config (some metadata) none sandbox =
      (err (invalid_parameter "CreateContainerRequest.Config.Image"), w)
  create_parts o w config (some metadata) (some image) none =
      (err (invalid_parameter "CreateContainerRequest.SandboxConfig"), w)
  create_parts o w config (some metadata) (some image) (some sandbox) =
      create_checked o w config metadata image sandbox

  -- Answers with the id of the new container.
  unfoldable pub create_container : Surroundings → World D → Request → Outcome String × World D
  create_container o w req = elim req.config [
    | none ↦ (err (invalid_parameter "CreateContainerRequest.Config"), w)
    | some config ↦ create_parts o w config config.metadata config.image req.sandbox_metadata
  ]
