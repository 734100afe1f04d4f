-- ===== src/Runtime/Terminate/Returns.antt =====
-- When `terminateContainer` returns.
use luna_for_mac.Base.{
  ℕ, String, true, false, ◌≡◌, refl, sym, subst, Option, none, some, List, [], ◌∷◌, ◌==◌, ◌⊎◌, In,
  Bool-cases, Option-cases, inl, inr, Lacks, eq_iff,
}
use luna_for_mac.Base.Int.{ℤ, int_eq, pos}
use luna_for_mac.Path.{slash}
use luna_for_mac.Disk.{Diskv, IsLawful, IsReliable}
use luna_for_mac.Runtime.Duration.{seconds_duration}
use luna_for_mac.Runtime.Container.{Container}
use luna_for_mac.Runtime.Types.{World, Outcome, ok, err, waiting, is_running, sigterm}
use luna_for_mac.Runtime.Records.{get_container}
use luna_for_mac.Runtime.Terminate.{
  Exit, Wake, Kill, tick, context_done, timer_wins, track_exit, track_exits, wait_loop, signal,
  target, terminate_container,
}
use luna_for_mac.Runtime.Terminate.Outcomes.{IsPlainExit, PlainExits, PlainWakes}
use luna_for_mac.Runtime.Terminate.Tracked.{tracked, get_container-track_exit}

-- The record, if there is one, still has the process, or is no longer running.
abbrev pub Owns : ℤ → Option Container → Type 0
Owns pid none = Unit
Owns pid (some c) = (int_eq c.pid pid ≡ true) ⊎ (is_running c ≡ false)

abbrev Ended : Option Container → Type 0
Ended none = Unit
Ended (some c) = is_running c ≡ false

-- In one of the rounds the timer fires first, or the call's context ends, or the tick sees the exit
-- of the container's process.
abbrev pub Ends : ℤ → ℕ → Container → List Wake → Type 0
Ends duration now c [] = ⊥
Ends duration now c ((at, tie, tick exits) ∷ wakes) =
    (timer_wins duration now at tie ≡ true)
    ⊎ ((e : Exit) × In e exits × (e.container_id ≡ c.id) × (e.pid ≡ c.pid))
    ⊎ Ends duration at c wakes
Ends duration now c ((at, tie, context_done) ∷ wakes) = Unit

-- The handler has returned, with or without an error.
abbrev pub Returns : {A : Type 0} → Outcome A → Type 0
Returns (ok a) = Unit
Returns (err e) = Unit
Returns waiting = ⊥

tracked-Owns : (pid : ℤ) (e : Exit) (o : Option Container) → Owns pid o → Owns pid (tracked e o)
tracked-Owns pid e none h = tt
tracked-Owns pid e (some c) h = elim (Bool-cases (int_eq c.pid e.pid)) [
  | inl f ↦ rw f (inr refl)
  | inr f ↦ rw f h
]

tracked_ends : (e : Exit) (o : Option Container) → Owns e.pid o → Ended (tracked e o)
tracked_ends e none h = tt
tracked_ends e (some c) (inl f) = rw f refl
tracked_ends e (some c) (inr h) = elim (Bool-cases (int_eq c.pid e.pid)) [
  | inl f ↦ rw f refl
  | inr f ↦ rw f h
]

tracked-Ended : (e : Exit) (o : Option Container) → Ended o → Ended (tracked e o)
tracked-Ended e none h = tt
tracked-Ended e (some c) h = elim (Bool-cases (int_eq c.pid e.pid)) [
  | inl f ↦ rw f refl
  | inr f ↦ rw f h
]

module _ (D : Diskv) (L : IsLawful D) (R : IsReliable D) (k : String) (plain : Lacks slash k) where
  -- What the exits that are tracked keep of a record.
  track_exit_keeps :
      (P : Option Container → Type 0)
      → ((e : Exit) (o : Option Container) → P o → P (tracked e o))
      → (s : D.State) (e : Exit) → IsPlainExit e
      → P (get_container D s k)
      → P (get_container D (track_exit D s e) k)
  track_exit_keeps P step s e h v = elim (Bool-cases (e.container_id == k)) [
    | inl f ↦
        rw (get_container-track_exit D L R s e k h plain, f)
          (step e (get_container D s e.container_id)
            (subst (λ i. P (get_container D s i)) (sym ((eq_iff e.container_id k).0 f)) v))
    | inr f ↦ rw (get_container-track_exit D L R s e k h plain, f) v
  ]

  track_exits_keeps :
      (P : Option Container → Type 0)
      → ((e : Exit) (o : Option Container) → P o → P (tracked e o))
      → (s : D.State) (es : List Exit) → PlainExits es
      → P (get_container D s k)
      → P (get_container D (track_exits D s es) k)
  unfolding track_exits
  track_exits_keeps P step s [] h v = v
  track_exits_keeps P step s (e ∷ es) h v =
      track_exits_keeps P step (track_exit D s e) es h.1 (track_exit_keeps P step s e h.0 v)

  -- After the exit of its process the container is not running, whatever else exits.
  track_exits-Ended :
      (s : D.State) (es : List Exit) (e : Exit)
      → PlainExits es
      → In e es
      → e.container_id ≡ k
      → Owns e.pid (get_container D s k)
      → Ended (get_container D (track_exits D s es) k)
  unfolding track_exits
  track_exits-Ended s [] e h i same v = elim i [ ]
  track_exits-Ended s (d ∷ es) e h (inl f) same v =
      track_exits_keeps Ended tracked-Ended (track_exit D s d) es h.1 (
        subst (λ x. Ended (get_container D (track_exit D s x) k)) f
          (rw
            (
              get_container-track_exit D L R s e k (subst IsPlainExit (sym f) h.0) plain,
              (eq_iff e.container_id k).1 same,
            )
            (tracked_ends e (get_container D s e.container_id)
              (subst (λ i. Owns e.pid (get_container D s i)) (sym same) v))))
  track_exits-Ended s (d ∷ es) e h (inr i) same v =
      track_exits-Ended (track_exit D s d) es e h.1 i same
        (track_exit_keeps (Owns e.pid) (tracked-Owns e.pid) s d h.0 v)

module _ (D : Diskv) (L : IsLawful D) (R : IsReliable D) (c : Container)
    (plain : Lacks slash c.id) where
  wait_loop-Returns :
      (duration : ℤ) (now : ℕ) (w : World D) (wakes : List Wake)
      → PlainWakes wakes
      → Owns c.pid (get_container D w.store c.id)
      → Ends duration now c wakes
      → Returns (wait_loop D duration now w c wakes).0
  unfolding wait_loop
  wait_loop-Returns duration now w [] h v i = i
  wait_loop-Returns duration now w ((at, tie, context_done) ∷ wakes) h v i =
      elim (Bool-cases (timer_wins duration now at tie)) [
        | inl t ↦ rw (t, wait_loop) tt
        | inr t ↦ rw (t, wait_loop) tt
      ]
  wait_loop-Returns duration now w ((at, tie, tick exits) ∷ wakes) h v (inl t) =
      rw (t, wait_loop) tt
  wait_loop-Returns duration now w ((at, tie, tick exits) ∷ wakes) h v
        (inr (inl (e, seen, same, pid))) =
      let s = track_exits D w.store exits in
      let ended =
        track_exits-Ended D L R c.id plain w.store exits e h.0 seen same
          (subst (λ p. Owns p (get_container D w.store c.id)) (sym pid) v) in
      elim (Bool-cases (timer_wins duration now at tie)) [
        | inl t ↦ rw (t, wait_loop) tt
        | inr t ↦ elim (Option-cases (get_container D s c.id)) [
          | inl f ↦ rw (t, wait_loop, f) tt
          | inr (current, f) ↦ rw (t, wait_loop, f, subst Ended f ended) tt
        ]
      ]
  wait_loop-Returns duration now w ((at, tie, tick exits) ∷ wakes) h v (inr (inr i)) =
      let w' : World D = record w { store = track_exits D w.store exits } in
      let kept =
        track_exits_keeps D L R c.id plain (Owns c.pid) (tracked-Owns c.pid) w.store exits h.0 v in
      elim (Bool-cases (timer_wins duration now at tie)) [
        | inl t ↦ rw (t, wait_loop) tt
        | inr t ↦ elim (Option-cases (get_container D w'.store c.id)) [
          | inl f ↦ rw (t, wait_loop, f) tt
          | inr (current, f) ↦ elim (Bool-cases (is_running current)) [
            | inl g ↦ rw (t, wait_loop, f, g) (wait_loop-Returns duration at w' wakes h.1 kept i)
            | inr g ↦ rw (t, wait_loop, f, g) tt
          ]
        ]
      ]

  -- The call of `terminateContainer`, with any timeout, returns once its wait has seen the exit of
  -- the container's process at a tick, or a timer that fires before the next tick, or the end of the
  -- call's context, whatever other processes exit before. The stored record, if there is one, has the process or is not running,
  -- the disk is lawful and reliable, the ids hold no slash, and the exit codes are of their Go type.
  pub terminate_container-Returns :
      (timeout : ℤ) (w : World D) (k : Kill)
      → PlainWakes k.wakes
      → Owns c.pid (get_container D w.store c.id)
      → Ends (seconds_duration timeout) 0 c k.wakes
      → Returns (terminate_container D timeout w c k).0
  unfolding terminate_container
  terminate_container-Returns timeout w k h v i = elim (Bool-cases (is_running c)) [
    | inr running ↦ rw running tt
    | inl running ↦ elim (Bool-cases (int_eq c.pid (pos 0))) [
      | inl started ↦ rw (running, started) tt
      | inr started ↦ elim (Bool-cases k.process_found) [
        | inr found ↦ rw (running, started, found) tt
        | inl found ↦ elim (Bool-cases k.term_delivered) [
          | inr delivered ↦ rw (running, started, found, delivered) tt
          | inl delivered ↦
              rw (running, started, found, delivered)
                (wait_loop-Returns (seconds_duration timeout) 0
                  (signal D w (target D c.pid k.process_group) sigterm) k.wakes h v i)
        ]
      ]
    ]
  ]
