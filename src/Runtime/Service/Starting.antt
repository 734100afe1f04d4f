-- ===== src/Runtime/Service/Starting.antt =====
-- StartContainer and RunPodSandbox keep the store consistent.
use luna_for_mac.Base.{
  String, true, false, ◌≡◌, refl, sym, subst, ◌∙◌, Option, none, some, List, [], ◌∷◌, ◌++◌, Lacks,
  Bool-cases, Option-cases, inl, inr,
}
use luna_for_mac.Base.Int.{ℤ, int_eq, pos, is_int64}
use luna_for_mac.Path.{slash}
use luna_for_mac.Disk.{Diskv, IsLawful, IsReliable}
use luna_for_mac.Runtime.Container.{Container}
use luna_for_mac.Runtime.Sandbox
use luna_for_mac.Runtime.Sandbox.{Sandbox}
use luna_for_mac.Runtime.Records.{make_pod_id, get_container, get_sandbox}
use luna_for_mac.Runtime.Records.Laws.{get_container-Fits}
use luna_for_mac.Runtime.Types.{World}
use luna_for_mac.Runtime.Create.{PodMetadata}
use luna_for_mac.Runtime.Start.{
  Launch, running, made_log_dir, start_process, start_found, start_container,
}
use luna_for_mac.Runtime.Start.Started.{running-Fits, made_log_dir-store}
use luna_for_mac.Runtime.Pods.{PodConfig, new_sandbox, run_pod_sandbox}
use luna_for_mac.Runtime.Pods.Run.{run_pod_sandbox-some, run_pod-none, run_pod-some}
use luna_for_mac.Runtime.Service.{IsSound, IsSoundPod, IsConsistent}
use luna_for_mac.Runtime.Service.Store.{put_container-IsConsistent, put_sandbox-IsConsistent}

running-IsSound :
    (l : Launch) (pid : ℤ) (id : String) (c : Container)
    → int_eq pid (pos 0) ≡ false
    → IsSound id c
    → IsSound id (running l pid c)
running-IsSound l pid id c p h = record {
  own_id = h.own_id;
  plain_pod = h.plain_pod;
  has_process = λ r. p;
  finish_unset = h.finish_unset;
  known_state = inr (inl refl);
}

module _ (D : Diskv) (L : IsLawful D) (R : IsReliable D) where
  start_process-IsConsistent :
      (l : Launch) (w : World D) (cid : String) (c : Container) (pid : Option ℤ)
      → Lacks slash cid
      → ((n : ℤ) → pid ≡ some n → (is_int64 n ≡ true) × (int_eq n (pos 0) ≡ false))
      → is_int64 l.now ≡ true
      → get_container D w.store cid ≡ some c
      → IsConsistent D w.store
      → IsConsistent D (start_process D l w cid c pid).1.store
  unfolding start_process
  start_process-IsConsistent l w cid c none p ids now e v = v
  start_process-IsConsistent l w cid c (some pid) p ids now e v = elim (Bool-cases l.log_ok) [
    | inr b ↦ rw b v
    | inl b ↦ rw b (
        put_container-IsConsistent D L R w.store v cid p (running l pid c)
          (running-Fits l pid c (ids pid refl).0 now (get_container-Fits D w.store cid c e))
          (running-IsSound l pid cid c (ids pid refl).1 (v.containers cid p c e))
          (λ k b q g m. v.belongs cid k p q c b e g m))
  ]

  start_found-IsConsistent :
      (l : Launch) (w : World D) (cid : String) (c : Container) (args : List String)
      → Lacks slash cid
      → ((n : ℤ) → l.pid ≡ some n → (is_int64 n ≡ true) × (int_eq n (pos 0) ≡ false))
      → is_int64 l.now ≡ true
      → get_container D w.store cid ≡ some c
      → IsConsistent D w.store
      → IsConsistent D (start_found D l w cid c args).1.store
  unfolding start_found
  start_found-IsConsistent l w cid c [] p ids now e v = v
  start_found-IsConsistent l w cid c (arg ∷ args) p ids now e v =
      let w' = made_log_dir D l w c in
      let same = sym (made_log_dir-store D l w c) in
      let v' = subst (IsConsistent D) same v in
      elim (Bool-cases l.stdout_ok) [
        | inr a ↦ simp a v'
        | inl a ↦ elim (Bool-cases l.stderr_ok) [
          | inr b ↦ simp (a, b) v'
          | inl b ↦
              simp (a, b)
                (start_process-IsConsistent l w' cid c l.pid p ids now
                  (subst (λ s. get_container D s cid ≡ some c) same e) v')
        ]
      ]

  pub start_container-IsConsistent :
      (l : Launch) (w : World D) (cid : String)
      → Lacks slash cid
      → ((n : ℤ) → l.pid ≡ some n → (is_int64 n ≡ true) × (int_eq n (pos 0) ≡ false))
      → is_int64 l.now ≡ true
      → IsConsistent D w.store
      → IsConsistent D (start_container D l w cid).1.store
  unfolding start_container
  start_container-IsConsistent l w cid p ids now v =
      elim (Option-cases (get_container D w.store cid)) [
        | inl f ↦ rw (f, start_container) v
        | inr (c, f) ↦
            rw (f, start_container)
              (start_found-IsConsistent l w cid c (c.command ++ c.args) p ids now f v)
      ]

  new_sandbox-IsSoundPod :
      (now : ℤ) (config : PodConfig) (m : PodMetadata) (id : String)
      → IsSoundPod id (new_sandbox now config m id)
  new_sandbox-IsSoundPod now config m id = record {
    own_id = refl;
    plain = tt;
    distinct = tt;
    known_state = inl refl;
  }

  pub run_pod_sandbox-IsConsistent :
      (now : ℤ) (w : World D) (config : PodConfig) (m : PodMetadata)
      → config.metadata ≡ some m
      → Lacks slash (make_pod_id m.namespace m.name)
      → Sandbox.Fits (new_sandbox now config m (make_pod_id m.namespace m.name))
      → IsConsistent D w.store
      → IsConsistent D (run_pod_sandbox D now w (some config)).1.store
  run_pod_sandbox-IsConsistent now w config m has_metadata p fits v =
      let id = make_pod_id m.namespace m.name in
      let first = run_pod_sandbox-some D now w config m has_metadata in
      elim (Option-cases (get_sandbox D w.store id)) [
        | inl e ↦
            subst (λ r. IsConsistent D r.1.store) (sym (first ∙ run_pod-none D now w config m e))
              (put_sandbox-IsConsistent D L R w.store v id p (new_sandbox now config m id) fits
                (new_sandbox-IsSoundPod now config m id) (λ j a q g l. cc))
        | inr (pod, e) ↦
            subst (λ r. IsConsistent D r.1.store)
              (sym (first ∙ run_pod-some D now w config m pod e)) v
      ]
