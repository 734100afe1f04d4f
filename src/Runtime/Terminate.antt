-- ===== src/Runtime/Terminate.antt =====
-- `terminateContainer` and `trackContainerProcess` of procri/pkg/runtimeservice/container.go.
pub mod Grace
pub mod Outcomes
pub mod Stored
pub mod Tracked
pub mod Returns
use luna_for_mac.Base.{
  ℕ, ◌+◌, ◌*◌, ◌≤◌, String, Bool, true, false, not, Option, none, some, List, [], ◌∷◌, ◌++◌,
  if◌then◌else◌, ltb, nat_eq,
}
use luna_for_mac.Base.Int.{ℤ, pos, negsuc, int_eq}
use luna_for_mac.Disk.{Diskv}
use luna_for_mac.Runtime.Duration.{seconds_duration}
use luna_for_mac.Runtime.Container.{Container}
use luna_for_mac.Runtime.Records.{get_container, put_container}
use luna_for_mac.Runtime.Types.{
  World, Signal, sigterm, sigkill, Outcome, ok, err, waiting, not_started, cancelled, is_running,
  container_exited, neg,
}

-- The goroutine that StartContainer left behind for a process, at the moment when the process has
-- exited and its output has ended.
pub record Exit : Type 0 where
  pub container_id : String
  pub pid : ℤ
  pub exit_code : ℤ

-- What a `select` of the waiting loop may receive, but for its timer: a tick of the ticker, with the
-- processes that were seen to exit since the last one, or the end of the call's context.
pub data Cause : Type 0 where
  tick : List Exit → Cause
  context_done : Cause

-- A time, in nanoseconds from the start of the wait, at which the ticker or the context is ready, and
-- whether the `select` takes its timer where that is due at the same time: it may take either.
abbrev pub Wake : Type 0
Wake = ℕ × Bool × Cause

-- What the operating system answers to `terminateContainer`, and what the wait can receive.
pub record Kill : Type 0 where
  pub process_found : Bool
  pub process_group : Option ℤ
  pub term_delivered : Bool
  pub wakes : List Wake

-- When the timer fires that `time.After` makes at time `now`: at once, if the duration is negative.
abbrev pub due : ℤ → ℕ → ℕ
due (pos n) now = now + n
due (negsuc n) now = now

-- Whether a `select` that is entered at time `now` receives from its timer.
abbrev pub timer_wins : ℤ → ℕ → ℕ → Bool → Bool
timer_wins duration now at tie =
    if ltb (due duration now) at
    then true
    else (if nat_eq (due duration now) at then tie else false)

-- The ticker is on time: it has a tick within 500 ms of each entry of a `select`.
abbrev pub OnTime : ℕ → List Wake → Type 0
OnTime now [] = Unit
OnTime now ((at, tie, cause) ∷ wakes) = (now ≤ at) × (at ≤ now + 500000000) × OnTime at wakes

module _ (D : Diskv) where
  -- What `trackContainerProcess` does once it has waited.
  unfoldable pub track_exit : D.State → Exit → D.State
  track_exit s e = elim (get_container D s e.container_id) [
    | none ↦ s
    | some c ↦
        if not (int_eq c.pid e.pid)
        then s
        else put_container D s e.container_id
            (record c { exit_code = e.exit_code; state = container_exited })
  ]

  unfoldable pub track_exits : D.State → List Exit → D.State
  track_exits s [] = s
  track_exits s (e ∷ es) = track_exits (track_exit s e) es

  abbrev pub signal : World D → ℤ → Signal → World D
  signal w pid sig = record w { signals = w.signals ++ (pid, sig) ∷ [] }

  -- The loop of `terminateContainer`, from a `select` that is entered at time `now`. Each `select`
  -- has a timer of its own, for the whole duration.
  unfoldable pub wait_loop : ℤ → ℕ → World D → Container → List Wake → Outcome (Unit {0}) × World D
  wait_loop duration now w c [] = (waiting, w)
  wait_loop duration now w c ((at, tie, tick exits) ∷ wakes) =
      elim (timer_wins duration now at tie) [
        | true ↦ (ok tt, signal w c.pid sigkill)
        | false ↦
            let w' = record w { store = track_exits w.store exits } in
            elim (get_container D w'.store c.id) [
              | none ↦ (ok tt, w')
              | some current ↦ elim (is_running current) [
                | true ↦ wait_loop duration at w' c wakes
                | false ↦ (ok tt, w')
              ]
            ]
      ]
  wait_loop duration now w c ((at, tie, context_done) ∷ wakes) =
      elim (timer_wins duration now at tie) [
        | true ↦ (ok tt, signal w c.pid sigkill)
        | false ↦ (err cancelled, signal w c.pid sigkill)
      ]

  -- The process group if there is one, and else the process.
  abbrev pub target : ℤ → Option ℤ → ℤ
  target pid none = pid
  target pid (some group) = neg group

  -- The timeout is in seconds.
  unfoldable pub terminate_container : ℤ → World D → Container → Kill → Outcome (Unit {0}) × World D
  terminate_container timeout w c k =
      if not (is_running c)
      then (ok tt, w)
      else if int_eq c.pid (pos 0)
      then (err (not_started c.id), w)
      else if not k.process_found
      then (ok tt, w)
      else let w' = signal w (target c.pid k.process_group) sigterm in
        if k.term_delivered
        then wait_loop (seconds_duration timeout) 0 w' c k.wakes
        else (ok tt, signal w' (target c.pid k.process_group) sigkill)
