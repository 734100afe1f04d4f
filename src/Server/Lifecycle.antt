-- ===== src/Server/Lifecycle.antt =====
-- The end of the server, Close of procri/pkg/server/server.go, and the goroutine of
-- procri/cmd/procri/main.go that runs the streaming server beside the rest of the main program.
use luna_for_mac.Base.{
  Bool, false, ◌≡◌, ◌≢◌, refl, Option, none, some, List, [], ◌∷◌, if◌then◌else◌, ap, sym, ◌∙◌,
}

-- The listener and the gRPC server, which are libraries: a listener, whether it accepts connections,
-- what Close of the listener answers and does, where `false` is an error, and what Stop of the gRPC
-- server does to the listener that it serves.
pub record Network : Type 1 where
  pub Listener : Type 0
  pub accepts : Listener → Bool
  pub close_listener : Listener → Bool × Listener
  pub stop : Listener → Listener

-- Stop closes the listeners, and a listener that is closed cannot be closed again, as documented.
pub record IsNetwork (N : Network) : Type 0 where
  pub stop_closes : (l : N.Listener) → N.accepts (N.stop l) ≡ false
  pub close_once : (l : N.Listener) → N.accepts l ≡ false → (N.close_listener l).0 ≡ false

pub data Closed : Type 0 where
  closed_server close_failed panicked : Closed

-- `Close`. Before Serve has set the listener, it is nil.
unfoldable pub close : (N : Network) → Option N.Listener → Closed × Option N.Listener
close N none = (panicked, none)
close N (some l) =
    let (fine, l') = N.close_listener (N.stop l) in
    (if fine then closed_server else close_failed, some l')

-- Close answers with an error after every Serve that has set the listener, since Stop has closed it
-- already, and panics before. Stop closes the listeners, and a closed listener cannot be closed
-- again, as documented.
pub close_never_succeeds :
    (N : Network) (l : Option N.Listener) → IsNetwork N → (close N l).0 ≢ closed_server
unfolding close
close_never_succeeds N none n h = cc
close_never_succeeds N (some l) n h =
    let fails = n.close_once (N.stop l) (n.stop_closes l) in
    let failed : close_failed ≡ closed_server =
      sym (ap (λ b. if b then closed_server else close_failed) fails) ∙ h in
    cc failed

-- What happens to the variable `err` of `main`, which the goroutine shares: the streaming server
-- ends, and the goroutine assigns what Start gave; `main` assigns what a call of its own gave; the
-- goroutine tests the variable.
pub data Move (E : Type 0) : Type 0 where
  start_ended : Option E → Move E
  main_assigned : Option E → Move E
  tested : Move E

-- The goroutine: it runs the streaming server or has assigned its result, it ended the program with
-- an error, or it stopped the streaming server and is over.
pub data Goroutine (E : Type 0) : Type 0 where
  runs : Goroutine E
  ended_program : E → Goroutine E
  stopped : Goroutine E

unfoldable pub move : {E : Type 0} → Option E × Goroutine E → Move E → Option E × Goroutine E
move (err, g) (start_ended e) = (e, g)
move (err, g) (main_assigned e) = (e, g)
move (none, g) tested = (none, stopped)
move (some e, g) tested = (some e, ended_program e)

unfoldable pub moves :
    {E : Type 0} → Option E × Goroutine E → List (Move E) → Option E × Goroutine E
moves s [] = s
moves s (m ∷ ms) = moves (move s m) ms

-- The streaming server fails. If the goroutine tests the variable before `main` assigns to it, the
-- program ends with that error; if `main` assigns the result of a call that succeeded in between,
-- the goroutine goes on as if the streaming server had ended well, and the program with it.
pub start_failure_lost :
    {E : Type 0} (err : Option E) (e : E)
    → (moves (err, runs) (start_ended (some e) ∷ tested ∷ []) ≡ (some e, ended_program e))
      × (moves (err, runs) (start_ended (some e) ∷ main_assigned none ∷ tested ∷ [])
          ≡ (none, stopped))
unfolding moves move
start_failure_lost err e = (refl, refl)
