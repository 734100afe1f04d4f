-- ===== src/Runtime/Types.antt =====
-- What the handlers of the runtime service work on besides the data store: the signals that they send,
-- what they do to files, the processes that they start, and how they answer.
use luna_for_mac.Base.{zero, suc, String, Bool, List}
use luna_for_mac.Base.Int.{ℤ, pos, negsuc, int_eq}
use luna_for_mac.Disk.{Diskv}
use luna_for_mac.Runtime.Container.{Container}

pub data Signal : Type 0 where
  sigterm sigkill : Signal

pub data FileOp : Type 0 where
  removed : String → FileOp
  made_dir : String → FileOp
  linked : String → String → FileOp

-- The lists hold what happened, the oldest first.
pub record World (D : Diskv) : Type 0 where
  pub store : D.State
  pub signals : List (ℤ × Signal)
  pub file_ops : List FileOp
  pub started : List ℤ

pub data Error : Type 0 where
  not_supported : String → Error
  invalid_parameter : String → Error
  symlink_failed : Error
  missing_configuration : Error
  pod_exists : String → Error
  pod_not_found : Error
  container_not_found : String → Error
  no_command : String → Error
  start_failed : String → Error
  not_started : String → Error
  cancelled : Error

-- `waiting`: the handler has not returned yet.
pub data Outcome (A : Type 0) : Type 0 where
  ok : A → Outcome A
  err : Error → Outcome A
  waiting : Outcome A

-- cri.ContainerState and cri.PodSandboxState
abbrev pub container_created : ℤ
container_created = pos 0

abbrev pub container_running : ℤ
container_running = pos 1

abbrev pub container_exited : ℤ
container_exited = pos 2

abbrev pub sandbox_ready : ℤ
sandbox_ready = pos 0

abbrev pub sandbox_notready : ℤ
sandbox_notready = pos 1

abbrev pub is_running : Container → Bool
is_running c = int_eq c.state container_running

abbrev pub neg : ℤ → ℤ
neg (pos zero) = pos zero
neg (pos (suc n)) = negsuc n
neg (negsuc n) = pos (suc n)
