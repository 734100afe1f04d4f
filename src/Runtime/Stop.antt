-- ===== src/Runtime/Stop.antt =====
-- StopContainer and RemoveContainer of procri/pkg/runtimeservice/container.go.
pub mod Removed
use luna_for_mac.Base.{
  String, Bool, true, false, Option, none, some, List, [], ◌∷◌, ◌++◌, ◌==◌, if◌then◌else◌, contains,
}
use luna_for_mac.Base.Int.{ℤ, pos}
use luna_for_mac.Disk.{Diskv}
use luna_for_mac.Runtime.Container.{Container}
use luna_for_mac.Runtime.Sandbox.{Sandbox}
use luna_for_mac.Runtime.Records.{get_container, delete_container, get_sandbox, put_sandbox}
use luna_for_mac.Runtime.Types.{World, Outcome, ok, err, waiting, container_not_found}
use luna_for_mac.Runtime.Terminate.{Kill, terminate_container}

-- The slice without the first element that is the id.
unfoldable pub remove_first : String → List String → List String
remove_first cid [] = []
remove_first cid (id ∷ ids) = if id == cid then ids else id ∷ remove_first cid ids

module _ (D : Diskv) where
  -- The timeout is the request's.
  unfoldable pub stop_container : ℤ → World D → String → Kill → Outcome (Unit {0}) × World D
  stop_container timeout w cid k = elim (get_container D w.store cid) [
    | none ↦ (err (container_not_found cid), w)
    | some c ↦ terminate_container D timeout w c k
  ]

  -- The loop over the sandbox's containers: at the first that is the id the record is written.
  unfoldable pub detach : D.State → String → String → Option Sandbox → D.State
  detach s pod_id cid none = s
  detach s pod_id cid (some pod) =
      if contains pod.containers cid
      then put_sandbox D s pod_id (record pod { containers = remove_first cid pod.containers })
      else s

  unfoldable pub removed_after :
      String → Outcome (Unit {0}) × World D → Outcome (Option (Unit {0})) × World D
  removed_after cid (ok _, w) = (ok (some tt), record w { store = delete_container D w.store cid })
  removed_after cid (err e, w) = (err e, w)
  removed_after cid (waiting, w) = (waiting, w)

  unfoldable pub remove_found :
      World D → String → Kill → Option Container → Outcome (Option (Unit {0})) × World D
  remove_found w cid k none = (ok none, w)
  remove_found w cid k (some c) =
      let s = detach w.store c.pod_id cid (get_sandbox D w.store c.pod_id) in
      removed_after cid (terminate_container D (pos 0) (record w { store = s }) c k)

  -- The response is nil, `none`, where the container is not found.
  unfoldable pub remove_container : World D → String → Kill → Outcome (Option (Unit {0})) × World D
  remove_container w cid k = remove_found w cid k (get_container D w.store cid)
