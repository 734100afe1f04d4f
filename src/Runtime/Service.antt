-- ===== src/Runtime/Service.antt =====
-- The runtime service as a whole: its calls and the exits of processes as steps from one state to
-- the next, and what holds of every record in every state that the steps lead to.
pub mod Store
pub mod Ending
pub mod Closing
pub mod Making
pub mod Starting
pub mod Reached
pub mod Unlisted
pub mod Orphaned
pub mod Forced
pub mod Linked
pub mod Shrinks
use luna_for_mac.Base.{
  String, Bool, true, false, ◌≡◌, ◌⊎◌, Option, none, some, List, ◌==◌, All, Lacks, contains,
  Distinct,
}
use luna_for_mac.Base.Int.{ℤ, pos, int_eq, is_int64, is_uint32}
use luna_for_mac.Path.{slash}
use luna_for_mac.Json.{DistinctKeys}
use luna_for_mac.Disk.{Diskv}
use luna_for_mac.Runtime.Container.{Container}
use luna_for_mac.Runtime.Sandbox
use luna_for_mac.Runtime.Sandbox.{Sandbox}
use luna_for_mac.Runtime.Records.{make_pod_id, get_container, get_sandbox}
use luna_for_mac.Runtime.Types.{
  World, is_running, container_created, container_running, container_exited, sandbox_ready,
  sandbox_notready,
}
use luna_for_mac.Runtime.Create.{
  Surroundings, Request, Config, Metadata, PodMetadata, create_container,
}
use luna_for_mac.Runtime.Create.Created.{IsTyped}
use luna_for_mac.Runtime.Start.{Launch, start_container}
use luna_for_mac.Runtime.Terminate.{Exit, Kill, track_exit}
use luna_for_mac.Runtime.Terminate.Outcomes.{IsPlainExit, PlainWakes}
use luna_for_mac.Runtime.Stop.{stop_container, remove_container}
use luna_for_mac.Runtime.Pods.{
  PodConfig, new_sandbox, run_pod_sandbox, stop_pod_sandbox, remove_pod_sandbox,
}

-- What holds of the record of a container under its id.
pub record IsSound (id : String) (c : Container) : Type 0 where
  pub own_id : c.id ≡ id
  pub plain_pod : Lacks slash c.pod_id
  pub has_process : is_running c ≡ true → int_eq c.pid (pos 0) ≡ false
  pub finish_unset : c.finished_at ≡ pos 0
  pub known_state :
      (c.state ≡ container_created) ⊎ ((c.state ≡ container_running) ⊎ (c.state ≡ container_exited))

-- And of the record of a sandbox under its id.
pub record IsSoundPod (id : String) (p : Sandbox) : Type 0 where
  pub own_id : p.id ≡ id
  pub plain : All (Lacks slash) p.containers
  pub distinct : Distinct p.containers
  pub known_state : (p.state ≡ sandbox_ready) ⊎ (p.state ≡ sandbox_notready)

-- The pairs that a request's parts may be: values of their Go types, the names without a slash.
abbrev pub IsTypedRequest : Surroundings → Request → Type 0
IsTypedRequest o req =
    (config : Config) (metadata : Metadata)
    → req.config ≡ some config
    → config.metadata ≡ some metadata
    → IsTyped o config metadata

abbrev pub IsPlainSandbox : Option PodMetadata → Type 0
IsPlainSandbox none = Unit
IsPlainSandbox (some m) = Lacks slash (make_pod_id m.namespace m.name)

module _ (D : Diskv) where
  pub record IsConsistent (s : D.State) : Type 0 where
    pub containers :
        (k : String) → Lacks slash k → (c : Container) → get_container D s k ≡ some c → IsSound k c
    pub sandboxes :
        (k : String) → Lacks slash k → (p : Sandbox) → get_sandbox D s k ≡ some p → IsSoundPod k p
    pub belongs :
        (j k : String)
        → Lacks slash j
        → Lacks slash k
        → (c : Container) (p : Sandbox) → get_container D s j ≡ some c
        → get_sandbox D s k ≡ some p
        → contains p.containers j ≡ true
        → c.pod_id ≡ k

  -- The id that xid makes has no slash, and no sandbox lists it.
  pub record IsFresh (s : D.State) (cid : String) : Type 0 where
    pub plain : Lacks slash cid
    pub unlisted :
        (k : String) (p : Sandbox) → get_sandbox D s k ≡ some p → contains p.containers cid ≡ false

  -- What one call, or one exit of a process, does to the world. A process has an id other than 0.
  pub data Step (w : World D) : World D → Type 0 where
    create :
        (o : Surroundings) (req : Request)
        → IsFresh w.store o.cid
        → IsTypedRequest o req
        → IsPlainSandbox req.sandbox_metadata
        → Step w (create_container D o w req).1
    start :
        (l : Launch) (cid : String)
        → Lacks slash cid
        → ((pid : ℤ) → l.pid ≡ some pid → (is_int64 pid ≡ true) × (int_eq pid (pos 0) ≡ false))
        → is_int64 l.now ≡ true
        → Step w (start_container D l w cid).1
    exit : (e : Exit) → IsPlainExit e → Step w (record w { store = track_exit D w.store e })
    stop :
        (timeout : ℤ) (cid : String) (k : Kill)
        → Lacks slash cid
        → PlainWakes k.wakes
        → Step w (stop_container D timeout w cid k).1
    remove :
        (cid : String) (k : Kill)
        → Lacks slash cid
        → PlainWakes k.wakes
        → Step w (remove_container D w cid k).1
    run_sandbox :
        (now : ℤ) (config : PodConfig) (m : PodMetadata)
        → config.metadata ≡ some m
        → Lacks slash (make_pod_id m.namespace m.name)
        → Sandbox.Fits (new_sandbox now config m (make_pod_id m.namespace m.name))
        → Step w (run_pod_sandbox D now w (some config)).1
    stop_pod :
        (pod_id : String) (kills : String → Kill)
        → Lacks slash pod_id
        → ((id : String) → PlainWakes (kills id).wakes)
        → Step w (stop_pod_sandbox D w pod_id kills).1
    remove_pod :
        (pod_id : String) (kills : String → Kill)
        → Lacks slash pod_id
        → ((id : String) → PlainWakes (kills id).wakes)
        → Step w (remove_pod_sandbox D w pod_id kills).1

  pub data Reach (w : World D) : World D → Type 0 where
    here : Reach w w
    next : {u v : World D} → Reach w u → Step u v → Reach w v
