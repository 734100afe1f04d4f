-- ===== src/Streaming.antt =====
-- The streaming runtime, procri/pkg/streaming/streaming.go: running a command with its input and
-- output attached, and forwarding a port. What the operating system answers is an argument; the
-- events are what the code does, the oldest first.
pub mod Closes
pub mod Setup
mod Tests
use luna_for_mac.Base.{ℕ, String, Bool, true, false, Option, none, some, List, [], ◌∷◌, ◌++◌}

pub data Error : Type 0 where
  empty_command : Error
  not_implemented : Error
  cancelled : Error
  failure : String → Error
  dialing : ℕ → Error → Error

-- `waiting`: the function has not returned yet.
pub data Result : Type 0 where
  returned : Option Error → Result
  panicked : Result
  waiting : Result

-- remotecommand.TerminalSize, and unix.Winsize as far as it is set.
pub record TerminalSize : Type 0 where
  pub width : ℕ
  pub height : ℕ

pub record Winsize : Type 0 where
  pub row : ℕ
  pub col : ℕ

abbrev pub set_size : TerminalSize → Winsize
set_size size = record { row = size.height; col = size.width }

pub data Event : Type 0 where
  opened_pty closed_pty closed_stdout : Event
  resized : Winsize → Event
  started : String → List String → Event
  opened_conn closed_conn closed_stream : Event

-- The process: an error of its start, the sizes that `HandleResizing` of Kubernetes hands to the
-- callback of `ttyCmd` while it runs, and an error of the wait for it, which is `none` as long as the
-- process runs.
pub record Process : Type 0 where
  pub start_error : Option Error
  pub resizes : List TerminalSize
  pub wait : Option (Option Error)

abbrev pub waited : Option (Option Error) → Result
waited none = waiting
waited (some e) = returned e

-- The deferred calls run when the function returns, the last one first.
abbrev pub deferred : List Event → Result → List Event
deferred events (returned e) = events
deferred events panicked = events
deferred events waiting = []

-- What the callback does with the sizes.
unfoldable pub resize_all : List TerminalSize → List Event
resize_all [] = []
resize_all (size ∷ sizes) = resized (set_size size) ∷ resize_all sizes

-- `ttyCmd`. Without a stdout the `defer` of its Close panics, after the start of the process.
unfoldable pub tty_cmd : Process → String → List String → Bool → Result × List Event
tty_cmd p name args has_stdout = elim p.start_error [
  | some e ↦ (returned (some e), [])
  | none ↦ elim has_stdout [
    | true ↦ (
      waited p.wait,
      opened_pty
          ∷ started name args
          ∷ (resize_all p.resizes ++ deferred (closed_stdout ∷ closed_pty ∷ []) (waited p.wait)),
    )
    | false ↦ (panicked, opened_pty ∷ started name args ∷ closed_pty ∷ [])
  ]
]

unfoldable pub exec_plain : Process → String → List String → Result × List Event
exec_plain p name args = elim p.start_error [
  | some e ↦ (returned (some e), [])
  | none ↦ (waited p.wait, started name args ∷ [])
]

unfoldable pub exec : Process → List String → Bool → Bool → Result × List Event
exec p [] has_stdout tty = (returned (some empty_command), [])
exec p (name ∷ args) has_stdout true = tty_cmd p name args has_stdout
exec p (name ∷ args) has_stdout false = exec_plain p name args

abbrev pub attach : Result
attach = returned (some not_implemented)

-- What the first `select` of `handlePortForward` received, and what the second: the result of a copy
-- in one direction, the end of the second that is waited for, or the end of the context.
pub data First : Type 0 where
  copied : Option Error → First
  context_done : First

pub data Second : Type 0 where
  copied_too : Option Error → Second
  timed_out : Second
  context_done_too : Second

-- What the waits received so far: `none` as long as they wait.
pub record Forward : Type 0 where
  pub dial_error : Option Error
  pub first : Option First
  pub second : Option Second

-- The second `select`, after the first direction ended with `err_fwd`.
unfoldable pub finish_forward : Option Error → Option Second → Result
finish_forward err_fwd none = waiting
finish_forward none (some (copied_too e)) = returned e
finish_forward (some err) (some (copied_too e)) = returned (some err)
finish_forward err_fwd (some timed_out) = returned err_fwd
finish_forward err_fwd (some context_done_too) = returned (some cancelled)

unfoldable pub forward_loop : Option First → Option Second → Result
forward_loop none second = waiting
forward_loop (some context_done) second = returned (some cancelled)
forward_loop (some (copied e)) second = finish_forward e second

unfoldable pub handle_port_forward : ℕ → Forward → Result × List Event
handle_port_forward port f = elim f.dial_error [
  | some e ↦ (returned (some (dialing port e)), [])
  | none ↦ let r = forward_loop f.first f.second in (r, opened_conn ∷ deferred (closed_conn ∷ []) r)
]

unfoldable pub port_forward : ℕ → Forward → Result × List Event
port_forward port f =
    let (r, events) = handle_port_forward port f in (r, events ++ deferred (closed_stream ∷ []) r)
