-- ===== src/Runtime/Info.antt =====
-- The handlers of the runtime service that always give the same answer: Status and UpdateRuntimeConfig
-- of procri/pkg/runtimeservice/runtimeservice.go, UpdateContainerResources and ReopenContainerLog of
-- container.go.
use luna_for_mac.Base.{String, Bool, true, List, [], ◌∷◌}
use luna_for_mac.Disk.{Diskv}
use luna_for_mac.Runtime.Types.{World, Outcome, ok, err, not_supported}

data ConditionType : Type 0 where
  runtime_ready network_ready : ConditionType

-- cri.RuntimeCondition, but for its reason and message, which stay empty
record RuntimeCondition : Type 0 where
  kind : ConditionType
  status : Bool

abbrev status : List RuntimeCondition
status =
    (record { kind = runtime_ready; status = true })
    ∷ (record { kind = network_ready; status = true })
    ∷ []

module _ (D : Diskv) where
  -- The request's configuration is not read.
  abbrev update_runtime_config : World D → Outcome (Unit {0}) × World D
  update_runtime_config w = (ok tt, w)

  -- The resources of the request are logged, and nothing else is done with them.
  abbrev update_container_resources : World D → String → Outcome (Unit {0}) × World D
  update_container_resources w container_id = (ok tt, w)

  abbrev reopen_container_log : World D → String → Outcome (Unit {0}) × World D
  reopen_container_log w container_id = (err (not_supported "ReopenContainerLog"), w)
