-- ===== src/Runtime/Terminate/Outcomes.antt =====
-- What `terminateContainer` leaves in the store. The goroutines that see processes exit write to it
-- during the wait, and only to containers that are there.
use mathlib.Core.Option
use luna_for_mac.Base.{
  ℕ, String, true, ◌≡◌, refl, ◌∙◌, sym, ap, none, some, List, [], ◌∷◌, ◌==◌, Bool-cases,
  Option-cases, inl, inr, Lacks, eq_iff,
}
use luna_for_mac.Base.Int.{ℤ, int_eq, is_int32, pos}
use luna_for_mac.Path.{slash}
use luna_for_mac.Disk.{Diskv, IsLawful, IsReliable}
use luna_for_mac.Runtime.Duration.{seconds_duration}
use luna_for_mac.Runtime.Container
use luna_for_mac.Runtime.Container.{Container}
use luna_for_mac.Runtime.Types.{World, is_running, container_exited, sigterm}
use luna_for_mac.Runtime.Records.{get_container, put_container, get_sandbox}
use luna_for_mac.Runtime.Records.Laws.{
  get_container-put_container, get_sandbox-put_container, get_container-Fits,
}
use luna_for_mac.Runtime.Terminate.{
  Exit, Wake, Kill, tick, context_done, timer_wins, track_exit, track_exits, wait_loop, signal,
  target, terminate_container,
}

-- An exit of a process of a container whose id holds no slash, with a code of Go's type.
pub record IsPlainExit (e : Exit) : Type 0 where
  pub plain : Lacks slash e.container_id
  pub typed : is_int32 e.exit_code ≡ true

abbrev pub PlainExits : List Exit → Type 0
PlainExits [] = Unit
PlainExits (e ∷ es) = IsPlainExit e × PlainExits es

abbrev pub PlainWakes : List Wake → Type 0
PlainWakes [] = Unit
PlainWakes ((at, tie, tick exits) ∷ wakes) = PlainExits exits × PlainWakes wakes
PlainWakes ((at, tie, context_done) ∷ wakes) = PlainWakes wakes

abbrev pub exited : Exit → Container → Container
exited e c = record c { exit_code = e.exit_code; state = container_exited }

pub exited-Fits :
    (e : Exit) (c : Container)
    → is_int32 e.exit_code ≡ true
    → Container.Fits c
    → Container.Fits (exited e c)
exited-Fits e c t f = record {
  attempt = f.attempt;
  pid = f.pid;
  created_at = f.created_at;
  started_at = f.started_at;
  finished_at = f.finished_at;
  exit_code = t;
  state = refl;
  labels = f.labels;
  annotations = f.annotations;
}

-- What every exit that is tracked keeps is kept by terminating a container.
module _ {ℓ} (D : Diskv) (P : D.State → Type ℓ)
    (step : (s : D.State) (e : Exit) → IsPlainExit e → P s → P (track_exit D s e)) where
  track_exits_keeps : (s : D.State) (es : List Exit) → PlainExits es → P s → P (track_exits D s es)
  unfolding track_exits
  track_exits_keeps s [] h v = v
  track_exits_keeps s (e ∷ es) h v = track_exits_keeps (track_exit D s e) es h.1 (step s e h.0 v)

  wait_loop_keeps :
      (duration : ℤ) (now : ℕ) (w : World D) (c : Container) (wakes : List Wake)
      → PlainWakes wakes
      → P w.store
      → P (wait_loop D duration now w c wakes).1.store
  unfolding wait_loop
  wait_loop_keeps duration now w c [] h v = v
  wait_loop_keeps duration now w c ((at, tie, context_done) ∷ wakes) h v =
      elim (Bool-cases (timer_wins duration now at tie)) [
        | inl t ↦ rw (t, wait_loop) v
        | inr t ↦ rw (t, wait_loop) v
      ]
  wait_loop_keeps duration now w c ((at, tie, tick exits) ∷ wakes) h v =
      let w' : World D = record w { store = track_exits D w.store exits } in
      let v' = track_exits_keeps w.store exits h.0 v in
      elim (Bool-cases (timer_wins duration now at tie)) [
        | inl t ↦ rw (t, wait_loop) v
        | inr t ↦ elim (Option-cases (get_container D w'.store c.id)) [
          | inl e ↦ rw (t, wait_loop, e) v'
          | inr (current, e) ↦ elim (Bool-cases (is_running current)) [
            | inl f ↦ rw (t, wait_loop, e, f) (wait_loop_keeps duration at w' c wakes h.1 v')
            | inr f ↦ rw (t, wait_loop, e, f) v'
          ]
        ]
      ]

  pub terminate_container_keeps :
      (timeout : ℤ) (w : World D) (c : Container) (k : Kill)
      → PlainWakes k.wakes
      → P w.store
      → P (terminate_container D timeout w c k).1.store
  unfolding terminate_container
  terminate_container_keeps timeout w c k h v = elim (Bool-cases (is_running c)) [
    | inr e ↦ rw e v
    | inl e ↦ elim (Bool-cases (int_eq c.pid (pos 0))) [
      | inl f ↦ rw (e, f) v
      | inr f ↦ elim (Bool-cases k.process_found) [
        | inr g ↦ rw (e, f, g) v
        | inl g ↦ elim (Bool-cases k.term_delivered) [
          | inr d ↦ rw (e, f, g, d) v
          | inl d ↦
              rw (e, f, g, d)
                (wait_loop_keeps (seconds_duration timeout) 0
                  (signal D w (target D c.pid k.process_group) sigterm) c k.wakes h v)
        ]
      ]
    ]
  ]

module _ (D : Diskv) where
  -- From `s` to `t` no sandbox changes, and no container appears.
  pub record Keeps (s t : D.State) : Type 0 where
    pub sandboxes : (k : String) → Lacks slash k → get_sandbox D t k ≡ get_sandbox D s k
    pub absent :
        (k : String) → Lacks slash k → get_container D s k ≡ none → get_container D t k ≡ none

  pub Keeps-refl : (s : D.State) → Keeps s s
  Keeps-refl s = record { sandboxes = λ k p. refl; absent = λ k p h. h }

  pub Keeps-trans : {s t u : D.State} → Keeps s t → Keeps t u → Keeps s u
  Keeps-trans a b = record {
    sandboxes = λ k p. b.sandboxes k p ∙ a.sandboxes k p;
    absent = λ k p h. b.absent k p (a.absent k p h);
  }

module _ (D : Diskv) (L : IsLawful D) (R : IsReliable D) where
  put_found-Keeps :
      (s : D.State) (id : String) (c c' : Container)
      → Lacks slash id
      → get_container D s id ≡ some c
      → Container.Fits c'
      → Keeps D s (put_container D s id c')
  put_found-Keeps s id c c' plain found fits = record {
    sandboxes = λ k p. get_sandbox-put_container D L R s id k plain p c';
    absent = λ k p h.
        get_container-put_container D L R s id k plain p c' fits ∙ elim (Bool-cases (id == k)) [
          | inl e ↦ rw e (absurd (found_absent k e h))
          | inr e ↦ rw e h
        ];
  }
    where
      found_absent : (k : String) → (id == k) ≡ true → get_container D s k ≡ none → ⊥
      found_absent k e h =
          Option.some-ne-none c (sym found ∙ ap (get_container D s) ((eq_iff id k).0 e) ∙ h)

  track_exit-Keeps : (s : D.State) (e : Exit) → IsPlainExit e → Keeps D s (track_exit D s e)
  unfolding track_exit
  track_exit-Keeps s e h = elim (Option-cases (get_container D s e.container_id)) [
    | inl f ↦ rw (f, track_exit) (Keeps-refl D s)
    | inr (c, f) ↦ elim (Bool-cases (int_eq c.pid e.pid)) [
      | inr g ↦ rw (f, track_exit, g) (Keeps-refl D s)
      | inl g ↦
          rw (f, track_exit, g)
            (put_found-Keeps s e.container_id c (exited e c) h.plain f
              (exited-Fits e c h.typed (get_container-Fits D s e.container_id c f)))
    ]
  ]

  -- Terminating a container changes no sandbox and makes no container appear.
  pub terminate_container-Keeps :
      (timeout : ℤ) (w : World D) (c : Container) (k : Kill)
      → PlainWakes k.wakes
      → Keeps D w.store (terminate_container D timeout w c k).1.store
  terminate_container-Keeps timeout w c k h =
      terminate_container_keeps D (Keeps D w.store)
        (λ s e plain kept. Keeps-trans D kept (track_exit-Keeps s e plain)) timeout w c k h
        (Keeps-refl D w.store)
