-- ===== src/Runtime/Service/Shrinks/Steps.antt =====
-- Every step but a call of CreateContainer lets no container appear and no list of a sandbox grow.
use luna_for_mac.Base.{
  String, true, false, ◌≡◌, refl, sym, subst, ◌∙◌, Option, none, some, List, [], ◌∷◌, ◌++◌, Lacks,
  Bool-cases, Option-cases, inl, inr,
}
use luna_for_mac.Base.Int.{ℤ, int_eq, pos, is_int64}
use luna_for_mac.Path.{slash}
use luna_for_mac.Disk.{Diskv, IsLawful, IsReliable}
use luna_for_mac.Runtime.Container.{Container}
use luna_for_mac.Runtime.Sandbox
use luna_for_mac.Runtime.Sandbox.{Sandbox}
use luna_for_mac.Runtime.Records.{make_pod_id, get_container, get_sandbox}
use luna_for_mac.Runtime.Records.Laws.{get_container-Fits}
use luna_for_mac.Runtime.Types.{World}
use luna_for_mac.Runtime.Create.{PodMetadata}
use luna_for_mac.Runtime.Start.{
  Launch, running, made_log_dir, start_process, start_found, start_container,
}
use luna_for_mac.Runtime.Start.Started.{running-Fits, made_log_dir-store}
use luna_for_mac.Runtime.Pods.{PodConfig, new_sandbox, run_pod_sandbox}
use luna_for_mac.Runtime.Pods.Run.{run_pod_sandbox-some, run_pod-none, run_pod-some}
use luna_for_mac.Runtime.Service.{
  IsConsistent, Step, create, start, exit, stop, remove, run_sandbox, stop_pod, remove_pod,
}
use luna_for_mac.Runtime.Service.Shrinks.{
  Shrinks, Shrinks-refl, put_container-Shrinks, put_sandbox-Shrinks,
}
use luna_for_mac.Runtime.Service.Shrinks.Ending.{
  track_exit-Shrinks, stop_container-Shrinks, remove_container-Shrinks, stop_pod_sandbox-Shrinks,
  remove_pod_sandbox-Shrinks,
}

-- The step is no call of CreateContainer.
abbrev pub IsOther : (D : Diskv) → {w v : World D} → Step D w v → Type 0
IsOther D (create o req fresh typed plain) = ⊥
IsOther D _ = Unit

module _ (D : Diskv) (L : IsLawful D) (R : IsReliable D) where
  start_process-Shrinks :
      (l : Launch) (w : World D) (cid : String) (c : Container) (pid : Option ℤ)
      → Lacks slash cid
      → ((n : ℤ) → pid ≡ some n → (is_int64 n ≡ true) × (int_eq n (pos 0) ≡ false))
      → is_int64 l.now ≡ true
      → get_container D w.store cid ≡ some c
      → Shrinks D w.store (start_process D l w cid c pid).1.store
  unfolding start_process
  start_process-Shrinks l w cid c none p ids now e = Shrinks-refl D w.store
  start_process-Shrinks l w cid c (some pid) p ids now e = elim (Bool-cases l.log_ok) [
    | inr b ↦ rw b (Shrinks-refl D w.store)
    | inl b ↦ rw b (
        put_container-Shrinks D L R w.store cid p c (running l pid c)
          (running-Fits l pid c (ids pid refl).0 now (get_container-Fits D w.store cid c e)) e refl)
  ]

  start_found-Shrinks :
      (l : Launch) (w : World D) (cid : String) (c : Container) (args : List String)
      → Lacks slash cid
      → ((n : ℤ) → l.pid ≡ some n → (is_int64 n ≡ true) × (int_eq n (pos 0) ≡ false))
      → is_int64 l.now ≡ true
      → get_container D w.store cid ≡ some c
      → Shrinks D w.store (start_found D l w cid c args).1.store
  unfolding start_found
  start_found-Shrinks l w cid c [] p ids now e = Shrinks-refl D w.store
  start_found-Shrinks l w cid c (arg ∷ args) p ids now e =
      let w' = made_log_dir D l w c in
      let same = sym (made_log_dir-store D l w c) in
      let none_done = subst (Shrinks D w.store) same (Shrinks-refl D w.store) in
      elim (Bool-cases l.stdout_ok) [
        | inr a ↦ simp a none_done
        | inl a ↦ elim (Bool-cases l.stderr_ok) [
          | inr b ↦ simp (a, b) none_done
          | inl b ↦
              simp (a, b)
                (subst (λ s. Shrinks D s (start_process D l w' cid c l.pid).1.store) (sym same)
                  (start_process-Shrinks l w' cid c l.pid p ids now
                    (subst (λ s. get_container D s cid ≡ some c) same e)))
        ]
      ]

  start_container-Shrinks :
      (l : Launch) (w : World D) (cid : String)
      → Lacks slash cid
      → ((n : ℤ) → l.pid ≡ some n → (is_int64 n ≡ true) × (int_eq n (pos 0) ≡ false))
      → is_int64 l.now ≡ true
      → Shrinks D w.store (start_container D l w cid).1.store
  unfolding start_container
  start_container-Shrinks l w cid p ids now = elim (Option-cases (get_container D w.store cid)) [
    | inl f ↦ rw (f, start_container) (Shrinks-refl D w.store)
    | inr (c, f) ↦
        rw (f, start_container) (start_found-Shrinks l w cid c (c.command ++ c.args) p ids now f)
  ]

  run_pod_sandbox-Shrinks :
      (now : ℤ) (w : World D) (config : PodConfig) (m : PodMetadata)
      → config.metadata ≡ some m
      → Lacks slash (make_pod_id m.namespace m.name)
      → Sandbox.Fits (new_sandbox now config m (make_pod_id m.namespace m.name))
      → Shrinks D w.store (run_pod_sandbox D now w (some config)).1.store
  run_pod_sandbox-Shrinks now w config m has_metadata p fits =
      let id = make_pod_id m.namespace m.name in
      let first = run_pod_sandbox-some D now w config m has_metadata in
      elim (Option-cases (get_sandbox D w.store id)) [
        | inl e ↦
            subst (λ r. Shrinks D w.store r.1.store) (sym (first ∙ run_pod-none D now w config m e))
              (put_sandbox-Shrinks D L R w.store id p (new_sandbox now config m id) fits
                (λ j l. cc))
        | inr (pod, e) ↦
            subst (λ r. Shrinks D w.store r.1.store)
              (sym (first ∙ run_pod-some D now w config m pod e)) (Shrinks-refl D w.store)
      ]

  pub Step-Shrinks :
      {w v : World D} (step : Step D w v)
      → IsOther D step
      → IsConsistent D w.store
      → Shrinks D w.store v.store
  Step-Shrinks {w} (create o req fresh typed plain) other h = absurd other
  Step-Shrinks {w} (start l cid plain ids now) other h =
      start_container-Shrinks l w cid plain ids now
  Step-Shrinks {w} (exit e plain) other h = track_exit-Shrinks D L R w.store e plain
  Step-Shrinks {w} (stop timeout cid k plain wakes) other h =
      stop_container-Shrinks D L R timeout w cid k wakes
  Step-Shrinks {w} (remove cid k plain wakes) other h =
      remove_container-Shrinks D L R w cid k plain wakes h
  Step-Shrinks {w} (run_sandbox now config m has_metadata plain fits) other h =
      run_pod_sandbox-Shrinks now w config m has_metadata plain fits
  Step-Shrinks {w} (stop_pod id kills plain wakes) other h =
      stop_pod_sandbox-Shrinks D L R kills wakes w id plain h
  Step-Shrinks {w} (remove_pod id kills plain wakes) other h =
      remove_pod_sandbox-Shrinks D L R kills wakes w id plain h
