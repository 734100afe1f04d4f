-- ===== src/Streaming/Closes.antt =====
-- What the streaming runtime has closed when it returns, and what it returns.
use luna_for_mac.Base.{
  ℕ, String, Bool, true, false, ◌≡◌, ◌≢◌, refl, Option, none, some, List, [], ◌∷◌, ◌++◌, ◌⊎◌, inl,
  inr, Option-cases, In,
}
use luna_for_mac.Streaming.{
  deferred, waited, Error, Result, returned, panicked, waiting, Event, opened_conn, closed_conn,
  closed_stream, opened_pty, closed_pty, closed_stdout, started, Process, tty_cmd, exec_plain, exec,
  resize_all, First, copied, Second, copied_too, timed_out, context_done_too, Forward, forward_loop,
  finish_forward, handle_port_forward, port_forward,
}

-- The error that a forwarding is to report: the first that a direction ended with.
abbrev pub first_error : Option Error → Option Error → Option Error
first_error none second = second
first_error (some e) second = some e

abbrev pub late_error : Second → Option Error
late_error (copied_too e) = e
late_error _ = none

abbrev pub HasReturned : Result → Type 0
HasReturned waiting = ⊥
HasReturned _ = Unit

-- Either the call waits, and nothing is closed that was opened, or it is over, and the client's
-- stream is closed, and the connection to the port if there was one.
abbrev pub IsClosedUp : Result × List Event → Type 0
IsClosedUp (r, events) =
    ((r ≡ waiting) × (events ≡ opened_conn ∷ []))
    ⊎ (HasReturned r × In closed_stream events × (In opened_conn events → In closed_conn events))

loop-IsClosedUp :
    (r : Result)
    → IsClosedUp
        (r, (opened_conn ∷ deferred (closed_conn ∷ []) r) ++ deferred (closed_stream ∷ []) r)
loop-IsClosedUp waiting = inl (refl, refl)
loop-IsClosedUp panicked = inr (tt, inr (inr (inl refl)), λ i. inr (inl refl))
loop-IsClosedUp (returned e) = inr (tt, inr (inr (inl refl)), λ i. inr (inl refl))

forward-IsClosedUp :
    (port : ℕ) (dial_error : Option Error) (first : Option First) (second : Option Second)
    → IsClosedUp
        (port_forward port (record { dial_error = dial_error; first = first; second = second }))
unfolding port_forward handle_port_forward
forward-IsClosedUp port none first second = loop-IsClosedUp (forward_loop first second)
forward-IsClosedUp port (some e) first second =
    inr (tt, inl refl, λ i. elim i [ inl h ↦ cc | inr h ↦ elim h [ ] ])

-- PortForward closes the client's stream, and the connection to the port if it was made, on every
-- path on which it returns, whether the dialing fails, a direction ends, or the context is done; as
-- long as it waits it closes neither.
pub port_forward-IsClosedUp : (port : ℕ) (f : Forward) → IsClosedUp (port_forward port f)
port_forward-IsClosedUp port f = forward-IsClosedUp port f.dial_error f.first f.second

finish_forward_lem :
    (e : Option Error) (s : Second)
    → s ≢ context_done_too
    → finish_forward e (some s) ≡ returned (first_error e (late_error s))
unfolding finish_forward
finish_forward_lem none (copied_too e) h = refl
finish_forward_lem (some d) (copied_too e) h = refl
finish_forward_lem none timed_out h = refl
finish_forward_lem (some d) timed_out h = refl
finish_forward_lem e context_done_too h = absurd (h refl)

-- When the connection was made, one direction has ended, and the other has ended too or the second
-- of the timer has passed, PortForward returns the error of the first direction, or if it had none
-- that of the other direction, if that ended. The second wait does not end with the context.
pub port_forward_returns :
    (port : ℕ) (f : Forward) (e : Option Error) (s : Second)
    → f.dial_error ≡ none
    → f.first ≡ some (copied e)
    → f.second ≡ some s
    → s ≢ context_done_too
    → (port_forward port f).0 ≡ returned (first_error e (late_error s))
unfolding port_forward handle_port_forward forward_loop
port_forward_returns port f e s dialed first second live =
    rw (dialed, first, second) (finish_forward_lem e s live)

-- What Exec has closed: the terminal if it opened one, and then the client's stdout when the command
-- was waited for.
abbrev pub IsCleanedUp : Result × List Event → Type 0
IsCleanedUp (waiting, events) = Unit
IsCleanedUp (panicked, events) = In opened_pty events → In closed_pty events
IsCleanedUp (returned e, events) =
    In opened_pty events → In closed_stdout events × In closed_pty events

In-after : {A : Type 0} (a : A) (xs ys : List A) → In a ys → In a (xs ++ ys)
In-after a [] ys h = h
In-after a (x ∷ xs) ys h = inr (In-after a xs ys h)

wait-IsCleanedUp :
    (name : String) (args : List String) (sizes : List Event) (wait : Option (Option Error))
    → IsCleanedUp (
      waited wait,
      opened_pty
          ∷ started name args
          ∷ (sizes ++ deferred (closed_stdout ∷ closed_pty ∷ []) (waited wait)),
    )
wait-IsCleanedUp name args sizes none = tt
wait-IsCleanedUp name args sizes (some e) = λ i. (
  inr (inr (In-after closed_stdout sizes (closed_stdout ∷ closed_pty ∷ []) (inl refl))),
  inr (inr (In-after closed_pty sizes (closed_stdout ∷ closed_pty ∷ []) (inr (inl refl)))),
)

plain-IsCleanedUp :
    (name : String) (args : List String) (wait : Option (Option Error))
    → IsCleanedUp (waited wait, started name args ∷ [])
plain-IsCleanedUp name args none = tt
plain-IsCleanedUp name args (some e) = λ i. elim i [ inl h ↦ cc | inr h ↦ elim h [ ] ]

-- When Exec opened a terminal, it has closed the terminal and the client's stdout on every path on
-- which it returns, and the terminal where it panics.
pub exec-IsCleanedUp :
    (p : Process) (cmd : List String) (has_stdout tty : Bool)
    → IsCleanedUp (exec p cmd has_stdout tty)
unfolding exec tty_cmd exec_plain
exec-IsCleanedUp p [] has_stdout tty = λ i. elim i [ ]
exec-IsCleanedUp p (name ∷ args) has_stdout false = elim (Option-cases p.start_error) [
  | inl e ↦ rw e (plain-IsCleanedUp name args p.wait)
  | inr (d, e) ↦ rw e (λ i. elim i [ ])
]
exec-IsCleanedUp p (name ∷ args) true true = elim (Option-cases p.start_error) [
  | inl e ↦ rw e (wait-IsCleanedUp name args (resize_all p.resizes) p.wait)
  | inr (d, e) ↦ rw e (λ i. elim i [ ])
]
exec-IsCleanedUp p (name ∷ args) false true = elim (Option-cases p.start_error) [
  | inl e ↦ rw e (λ i. inr (inr (inl refl)))
  | inr (d, e) ↦ rw e (λ i. elim i [ ])
]

-- With a terminal and no stdout, Exec panics once the process has been started, and nothing waits for
-- the process.
pub exec_panics :
    (p : Process) (name : String) (args : List String)
    → p.start_error ≡ none
    → exec p (name ∷ args) false true ≡ (panicked, opened_pty ∷ started name args ∷ closed_pty ∷ [])
unfolding exec tty_cmd
exec_panics p name args e = rw e refl
