-- ===== src/Runtime/Terminate/Grace.antt =====
-- The grace period of `terminateContainer`.
use luna_for_mac.Base.{
  ℕ, suc, ◌+◌, ◌*◌, ◌≤◌, ◌<◌, Bool, true, false, ◌≡◌, refl, List, [], ◌∷◌, ◌++◌, arith,
  Option-cases, Bool-cases, inl, inr,
}
use luna_for_mac.Base.Int.{pos, int_eq}
use luna_for_mac.Disk.{Diskv}
use luna_for_mac.Runtime.Duration.{seconds_duration-exact}
use luna_for_mac.Runtime.Container.{Container}
use luna_for_mac.Runtime.Records.{get_container}
use luna_for_mac.Runtime.Types.{World, sigterm, is_running}
use luna_for_mac.Runtime.Terminate.{
  Wake, Kill, tick, context_done, timer_wins, OnTime, track_exits, signal, wait_loop, target,
  terminate_container,
}

-- The call's context does not end during the wait.
abbrev pub KeepsContext : List Wake → Type 0
KeepsContext [] = Unit
KeepsContext ((at, tie, context_done) ∷ wakes) = ⊥
KeepsContext ((at, tie, tick exits) ∷ wakes) = KeepsContext wakes

-- A timer of a second or more loses to a ticker that is on time.
timer_loses :
    (n now at : ℕ) (tie : Bool)
    → 1000000000 ≤ n
    → at ≤ now + 500000000
    → timer_wins (pos n) now at tie ≡ false
timer_loses n now at tie b t = ground arith

module _ (D : Diskv) where
  wait_loop-signals :
      (n now : ℕ) (w : World D) (c : Container) (wakes : List Wake)
      → 1000000000 ≤ n
      → OnTime now wakes
      → KeepsContext wakes
      → (wait_loop D (pos n) now w c wakes).1.signals ≡ w.signals
  unfolding wait_loop
  wait_loop-signals n now w c [] b t k = refl
  wait_loop-signals n now w c ((at, tie, context_done) ∷ wakes) b t k = elim k [ ]
  wait_loop-signals n now w c ((at, tie, tick exits) ∷ wakes) b (low, high, t) k =
      let w' : World D = record w { store = track_exits D w.store exits } in
      let late = timer_loses n now at tie b high in
      elim (Option-cases (get_container D w'.store c.id)) [
        | inl e ↦ rw (late, wait_loop, e) refl
        | inr (current, e) ↦ elim (Bool-cases (is_running current)) [
          | inl f ↦ rw (late, wait_loop, e, f) (wait_loop-signals n at w' c wakes b t k)
          | inr f ↦ rw (late, wait_loop, e, f) refl
        ]
      ]

  -- With a timeout of at least a second, and of at most 9223372036 seconds, the timeout never ends,
  -- when the ticker is on time: the timer is made anew in each round of the loop, and the 500 ms
  -- ticker always comes first. So the container that ignores SIGTERM is never killed, however long
  -- the call waits: of a running container with a pid whose process is found and takes the signal,
  -- `terminateContainer` sends SIGTERM alone, unless the call's context ends.
  pub terminate_never_kills :
      (seconds : ℕ) (w : World D) (c : Container) (k : Kill)
      → is_running c ≡ true
      → int_eq c.pid (pos 0) ≡ false
      → k.process_found ≡ true
      → k.term_delivered ≡ true
      → seconds < 9223372036
      → OnTime 0 k.wakes
      → KeepsContext k.wakes
      → (terminate_container D (pos (suc seconds)) w c k).1.signals
        ≡ w.signals ++ (target D c.pid k.process_group, sigterm) ∷ []
  unfolding terminate_container
  terminate_never_kills seconds w c k running started found delivered bound t kept =
      rw (running, started, found, delivered, seconds_duration-exact (suc seconds) (omega arith))
        (wait_loop-signals (suc seconds * 1000000000) 0
          (signal D w (target D c.pid k.process_group) sigterm) c k.wakes (omega arith) t kept)
