-- ===== src/Runtime/Overlap.antt =====
-- Calls of CreateContainer of procri/pkg/runtimeservice/container.go that overlap. The handlers run
-- on goroutines of their own and take no lock, so that another call may come between a call's
-- look-up of the sandbox and its writes. A call is taken in two parts: up to the look-up, and from
-- there on. Within a part nothing comes in between.
pub mod Calls
pub mod Lost
pub mod Revived
pub mod Pool
use luna_for_mac.Base.{String, Bool, true, false, Option, List, [], ◌∷◌, if◌then◌else◌}
use luna_for_mac.Disk.{Diskv}
use luna_for_mac.Runtime.Sandbox.{Sandbox}
use luna_for_mac.Runtime.Records.{make_pod_id, get_sandbox}
use luna_for_mac.Runtime.Types.{World, Outcome, err, symlink_failed}
use luna_for_mac.Runtime.Create.{Surroundings, Config, Metadata, PodMetadata, create_in_pod}
use luna_for_mac.Runtime.Create.Link.{link_mounts}

-- A request whose pointers are all there.
pub record Complete : Type 0 where
  pub surroundings : Surroundings
  pub config : Config
  pub metadata : Metadata
  pub image : String
  pub sandbox : PodMetadata

abbrev pub pod_of : Complete → String
pod_of a = make_pod_id a.sandbox.namespace a.sandbox.name

-- A call: it is made, it holds the sandbox that it looked up, or it is answered.
pub data Creation : Type 0 where
  made : Complete → Creation
  held : Complete → Option Sandbox → Creation
  answered : Outcome String → Creation

-- Which of two calls goes on.
pub data Turn : Type 0 where
  first second : Turn

module _ (D : Diskv) where
  unfoldable pub advance : World D → Creation → Creation × World D
  advance w (made a) =
      let (fine, w') = link_mounts D a.surroundings.link_calls w a.config.mounts in
      if fine
      then (held a (get_sandbox D w'.store (pod_of a)), w')
      else (answered (err symlink_failed), w')
  advance w (held a pod) =
      let (r, v) = create_in_pod D a.surroundings w a.config a.metadata a.image (pod_of a) pod in
      (answered r, v)
  advance w (answered r) = (answered r, w)

  -- Two calls by turns.
  unfoldable pub take_turns :
      World D → Creation → Creation → List Turn → (Creation × Creation) × World D
  take_turns w a b [] = ((a, b), w)
  take_turns w a b (first ∷ turns) = let (a', v) = advance w a in take_turns v a' b turns
  take_turns w a b (second ∷ turns) = let (b', v) = advance w b in take_turns v a b' turns
