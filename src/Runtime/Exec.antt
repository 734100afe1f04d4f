-- ===== src/Runtime/Exec.antt =====
-- ExecSync, Exec, Attach and PortForward of procri/pkg/runtimeservice/streaming.go.
pub mod Answers
use luna_for_mac.Base.{
  ◌+◌, ◌-◌, ◌%◌, ◌^◌, suc, String, Bool, true, false, Option, none, some, List, [], ◌∷◌,
  if◌then◌else◌, ltb,
}
use luna_for_mac.Base.Int.{ℤ, pos, negsuc, int_eq}
use luna_for_mac.Runtime.Duration.{seconds_duration}

-- The error of `cmd.Output()`: an *exec.ExitError with its exit code, or another.
pub data RunError : Type 0 where
  exit_error : ℤ → RunError
  other_error : RunError

-- How the command ended, what it wrote, and whether the child context had reached its deadline.
pub record Run : Type 0 where
  pub stdout : String
  pub stderr : String
  pub deadline_exceeded : Bool
  pub error : Option RunError

pub record ExecSyncRequest : Type 0 where
  pub cmd : List String
  pub timeout : ℤ

pub record ExecSyncResponse : Type 0 where
  pub stdout : String
  pub stderr : String
  pub exit_code : ℤ

pub data ExecError : Type 0 where
  empty_command : ExecError
  timed_out : ExecError
  failed : RunError → ExecError

abbrev pub default_exec_sync_timeout : ℤ
default_exec_sync_timeout = pos 120

-- The timeout of the child context, in nanoseconds.
unfoldable pub exec_timeout : ℤ → ℤ
exec_timeout timeout =
    seconds_duration (if int_eq timeout (pos 0) then default_exec_sync_timeout else timeout)

-- `int32(exitCode)`
abbrev wrap_int32 : ℤ → ℤ
wrap_int32 (pos n) =
    let bits = n % 2 ^ 32 in if ltb bits (2 ^ 31) then pos bits else negsuc (2 ^ 32 - 1 - bits)
wrap_int32 (negsuc n) =
    let bits = (2 ^ 32 - suc n % 2 ^ 32) % 2 ^ 32 in
    if ltb bits (2 ^ 31) then pos bits else negsuc (2 ^ 32 - 1 - bits)

abbrev pub error_code : RunError → ℤ
error_code (exit_error code) = code
error_code other_error = negsuc 0

-- What is answered for the output of the command, whether the deadline was exceeded, and the error.
unfoldable pub answer_run :
    String → String → Bool → Option RunError → Option ExecSyncResponse × Option ExecError
answer_run stdout stderr true error =
    (some (record { stdout = stdout; stderr = stderr; exit_code = negsuc 0 }), some timed_out)
answer_run stdout stderr false (some e) = (
  some (record { stdout = stdout; stderr = stderr; exit_code = wrap_int32 (error_code e) }),
  some (failed e),
)
answer_run stdout stderr false none =
    (some (record { stdout = stdout; stderr = stderr; exit_code = pos 0 }), none)

-- `run cancelled name args timeout` is what the operating system makes of the command, under a child
-- of the request's context, which may be cancelled already. The answer is the pair of the handler's
-- results; a nil is `none`.
module _ (run : Bool → String → List String → ℤ → Run) where
  unfoldable pub exec_sync : Bool → ExecSyncRequest → Option ExecSyncResponse × Option ExecError
  exec_sync cancelled req = elim req.cmd [
    | [] ↦ (none, some empty_command)
    | name ∷ args ↦
        let r = run cancelled name args (exec_timeout req.timeout) in
        answer_run r.stdout r.stderr r.deadline_exceeded r.error
  ]

-- The three handlers that pass a request on to the streaming server of Kubernetes, which gives a
-- response or an error.
module _ (ExecRequest AttachRequest PortForwardRequest Response Failure : Type 0) where
  pub record StreamingServer : Type 0 where
    pub get_exec : ExecRequest → Option Response × Option Failure
    pub get_attach : AttachRequest → Option Response × Option Failure
    pub get_port_forward : PortForwardRequest → Option Response × Option Failure

  abbrev exec : StreamingServer → ExecRequest → Option Response × Option Failure
  exec server req = server.get_exec req

  abbrev attach : StreamingServer → AttachRequest → Option Response × Option Failure
  attach server req = server.get_attach req

  abbrev port_forward : StreamingServer → PortForwardRequest → Option Response × Option Failure
  port_forward server req = server.get_port_forward req
