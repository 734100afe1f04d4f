-- ===== src/Runtime/Service/Linked/Making.antt =====
-- CreateContainer, StartContainer and RunPodSandbox keep stored containers in the lists of their
-- sandboxes.
use mathlib.Core.Option.{some-injective}
use luna_for_mac.Base.{
  ap, ◌==◌, if◌then◌else◌, String, true, false, ◌≡◌, refl, sym, subst, ◌∙◌, Option, none, some,
  List, [], ◌∷◌, ◌++◌, arith, Lacks, contains, contains-append, Bool-cases, Option-cases, inl, inr,
  eq_iff, eq_refl,
}
use luna_for_mac.Base.Int.{ℤ, int_eq, pos, is_int64}
use luna_for_mac.Path.{slash}
use luna_for_mac.Disk.{Diskv, IsLawful, IsReliable}
use luna_for_mac.Runtime.Container.{Container}
use luna_for_mac.Runtime.Sandbox
use luna_for_mac.Runtime.Sandbox.{Sandbox}
use luna_for_mac.Runtime.Records.{make_pod_id, get_container, put_container, get_sandbox}
use luna_for_mac.Runtime.Records.Laws.{
  get_container-put_container, get_sandbox-put_container, get_container-Fits, get_sandbox-Fits,
}
use luna_for_mac.Runtime.Types.{World, sandbox_ready}
use luna_for_mac.Runtime.Create.{
  Surroundings, Request, Config, Metadata, PodMetadata, new_container, create_in_pod,
  create_checked, create_container,
}
use luna_for_mac.Runtime.Create.Link.{link_mounts}
use luna_for_mac.Runtime.Create.Mounts.{link_mounts-Links, create_container_cases}
use luna_for_mac.Runtime.Create.Created.{IsTyped, new_container-Fits, appended-Fits}
use luna_for_mac.Runtime.Start.{
  Launch, running, made_log_dir, start_process, start_found, start_container,
}
use luna_for_mac.Runtime.Start.Started.{running-Fits, made_log_dir-store}
use luna_for_mac.Runtime.Pods.{PodConfig, new_sandbox, run_pod_sandbox}
use luna_for_mac.Runtime.Pods.Run.{run_pod_sandbox-some, run_pod-none, run_pod-some}
use luna_for_mac.Runtime.Service.{IsFresh, IsTypedRequest, IsPlainSandbox}
use luna_for_mac.Runtime.Service.Store.{put_container-IsConsistent}
use luna_for_mac.Runtime.Service.Making.{new_container-IsSound}
use luna_for_mac.Runtime.Service.Linked.{
  IsLinked, IsLinked-spare, put_container-IsLinked, put_sandbox-IsLinked,
}
use luna_for_mac.Runtime.Service.Linked.Ending.{IsKept}

module _ (D : Diskv) (L : IsLawful D) (R : IsReliable D) (spared : List String) where
  -- After the new container was put, it alone is not listed.
  put_new-IsLinked :
      (o : Surroundings) (s : D.State) (config : Config) (m : Metadata) (image pod_id : String)
      (pod : Sandbox)
      → Lacks slash o.cid
      → IsTyped o config m
      → Lacks slash pod_id
      → IsKept D L R spared s
      → IsLinked D
          (o.cid ∷ spared)
          (put_container D s o.cid (new_container D o config m image pod pod_id))
  put_new-IsLinked o s config m image pod_id pod fresh t p (v, l) =
      put_container-IsLinked D L R s v o.cid fresh (o.cid ∷ spared)
        (new_container D o config m image pod pod_id)
        (new_container-Fits D o config m image pod pod_id t) p
        (λ out. absurd (ground (arith, eq_refl o.cid))) (IsLinked-spare D spared o.cid s l)

  create_in_pod-IsLinked :
      (o : Surroundings) (w : World D) (config : Config) (m : Metadata) (image pod_id : String)
      (pod : Option Sandbox)
      → IsFresh D w.store o.cid
      → IsTyped o config m
      → Lacks slash pod_id
      → get_sandbox D w.store pod_id ≡ pod
      → IsKept D L R spared w.store
      → IsLinked D spared (create_in_pod D o w config m image pod_id pod).1.store
  unfolding create_in_pod
  create_in_pod-IsLinked o w config m image pod_id none fresh t p e (v, l) = l
  create_in_pod-IsLinked o w config m image pod_id (some pod) fresh t p e (v, l) =
      elim (Bool-cases (int_eq pod.state sandbox_ready)) [
        | inr f ↦ rw f l
        | inl f ↦
            let c = new_container D o config m image pod pod_id in
            let s = put_container D w.store o.cid c in
            let fits = new_container-Fits D o config m image pod pod_id t in
            let v1 =
              put_container-IsConsistent D L R w.store v o.cid fresh.plain c fits
                (new_container-IsSound D L R o config m image pod pod_id p)
                (λ k b q g l. cc (l, fresh.unlisted k b g)) in
            let l1 = put_new-IsLinked o w.store config m image pod_id pod fresh.plain t p (v, l) in
            let ids = pod.containers ++ o.cid ∷ [] in
            let there = get_sandbox-put_container D L R w.store o.cid pod_id fresh.plain p c ∙ e in
            rw f (
              put_sandbox-IsLinked D L R s v1 pod_id p spared (record pod { containers = ids })
                (appended-Fits pod ids (get_sandbox-Fits D w.store pod_id pod e))
                (λ j a q out found own.
                  contains-append pod.containers (o.cid ∷ []) j ∙ (elim (Bool-cases (o.cid == j)) [
                    | inl same ↦ ground arith
                    | inr other ↦
                        let (listing, here, lists) = l1.home j a q (ground arith) found in
                        let one : some listing ≡ some pod =
                          sym here ∙ ap (get_sandbox D s) own ∙ there in
                        let old =
                          subst (λ (d : Sandbox). contains d.containers j ≡ true)
                            (some-injective _ _ one) lists in
                        ground arith
                  ]))
                (λ j a q out found far. elim (Bool-cases (o.cid == j)) [
                  | inr other ↦ l1.home j a q (ground arith) found
                  | inl same ↦
                      let new : some a ≡ some c =
                        sym found
                        ∙ get_container-put_container D L R w.store o.cid j fresh.plain q c fits
                        ∙ ap (λ b. if b then some c else get_container D w.store j) same in
                      let home : a.pod_id ≡ pod_id =
                        ap (λ (d : Container). d.pod_id) (some-injective _ _ new) in
                      cc (far, (eq_iff pod_id a.pod_id).1 (sym home))
                ]))
      ]

  create_checked-IsLinked :
      (o : Surroundings) (w : World D) (config : Config) (m : Metadata) (image : String)
      (sandbox : PodMetadata)
      → IsFresh D w.store o.cid
      → IsTyped o config m
      → Lacks slash (make_pod_id sandbox.namespace sandbox.name)
      → IsKept D L R spared w.store
      → IsLinked D spared (create_checked D o w config m image sandbox).1.store
  unfolding create_checked
  create_checked-IsLinked o w config m image sandbox fresh t p kept =
      let r = link_mounts D o.link_calls w config.mounts in
      let same = sym (link_mounts-Links D o.link_calls w config.mounts).same_store in
      let kept' = subst (IsKept D L R spared) same kept in
      let pod_id = make_pod_id sandbox.namespace sandbox.name in
      elim (Bool-cases r.0) [
        | inr b ↦ rw b kept'.1
        | inl b ↦ rw b (
            create_in_pod-IsLinked o r.1 config m image pod_id (get_sandbox D r.1.store pod_id)
              (subst (λ s. IsFresh D s o.cid) same fresh) t p refl kept')
      ]

  pub create_container-IsLinked :
      (o : Surroundings) (w : World D) (req : Request)
      → IsFresh D w.store o.cid
      → IsTypedRequest o req
      → IsPlainSandbox req.sandbox_metadata
      → IsKept D L R spared w.store
      → IsLinked D spared (create_container D o w req).1.store
  create_container-IsLinked o w req fresh typed plain kept =
      create_container_cases D (λ r. IsLinked D spared r.1.store) o w req (λ e. kept.1)
        (λ config m i s has_config has_metadata has_sandbox.
          create_checked-IsLinked o w config m i s fresh (typed config m has_config has_metadata)
            (subst IsPlainSandbox has_sandbox plain) kept)

  start_process-IsLinked :
      (l : Launch) (w : World D) (cid : String) (c : Container) (pid : Option ℤ)
      → Lacks slash cid
      → ((n : ℤ) → pid ≡ some n → (is_int64 n ≡ true) × (int_eq n (pos 0) ≡ false))
      → is_int64 l.now ≡ true
      → get_container D w.store cid ≡ some c
      → IsKept D L R spared w.store
      → IsLinked D spared (start_process D l w cid c pid).1.store
  unfolding start_process
  start_process-IsLinked l w cid c none p ids now e kept = kept.1
  start_process-IsLinked l w cid c (some pid) p ids now e (v, h) = elim (Bool-cases l.log_ok) [
    | inr b ↦ rw b h
    | inl b ↦ rw b (
        put_container-IsLinked D L R w.store v cid p spared (running l pid c)
          (running-Fits l pid c (ids pid refl).0 now (get_container-Fits D w.store cid c e))
          (v.containers cid p c e).plain_pod (λ out. h.home cid c p out e) h)
  ]

  start_found-IsLinked :
      (l : Launch) (w : World D) (cid : String) (c : Container) (args : List String)
      → Lacks slash cid
      → ((n : ℤ) → l.pid ≡ some n → (is_int64 n ≡ true) × (int_eq n (pos 0) ≡ false))
      → is_int64 l.now ≡ true
      → get_container D w.store cid ≡ some c
      → IsKept D L R spared w.store
      → IsLinked D spared (start_found D l w cid c args).1.store
  unfolding start_found
  start_found-IsLinked l w cid c [] p ids now e kept = kept.1
  start_found-IsLinked l w cid c (arg ∷ args) p ids now e kept =
      let w' = made_log_dir D l w c in
      let same = sym (made_log_dir-store D l w c) in
      let kept' = subst (IsKept D L R spared) same kept in
      elim (Bool-cases l.stdout_ok) [
        | inr a ↦ simp a kept'.1
        | inl a ↦ elim (Bool-cases l.stderr_ok) [
          | inr b ↦ simp (a, b) kept'.1
          | inl b ↦
              simp (a, b)
                (start_process-IsLinked l w' cid c l.pid p ids now
                  (subst (λ s. get_container D s cid ≡ some c) same e) kept')
        ]
      ]

  pub start_container-IsLinked :
      (l : Launch) (w : World D) (cid : String)
      → Lacks slash cid
      → ((n : ℤ) → l.pid ≡ some n → (is_int64 n ≡ true) × (int_eq n (pos 0) ≡ false))
      → is_int64 l.now ≡ true
      → IsKept D L R spared w.store
      → IsLinked D spared (start_container D l w cid).1.store
  unfolding start_container
  start_container-IsLinked l w cid p ids now kept =
      elim (Option-cases (get_container D w.store cid)) [
        | inl f ↦ rw (f, start_container) kept.1
        | inr (c, f) ↦
            rw (f, start_container)
              (start_found-IsLinked l w cid c (c.command ++ c.args) p ids now f kept)
      ]

  pub run_pod_sandbox-IsLinked :
      (now : ℤ) (w : World D) (config : PodConfig) (m : PodMetadata)
      → config.metadata ≡ some m
      → Lacks slash (make_pod_id m.namespace m.name)
      → Sandbox.Fits (new_sandbox now config m (make_pod_id m.namespace m.name))
      → IsKept D L R spared w.store
      → IsLinked D spared (run_pod_sandbox D now w (some config)).1.store
  run_pod_sandbox-IsLinked now w config m has_metadata p fits (v, l) =
      let id = make_pod_id m.namespace m.name in
      let first = run_pod_sandbox-some D now w config m has_metadata in
      elim (Option-cases (get_sandbox D w.store id)) [
        | inl e ↦
            subst (λ r. IsLinked D spared r.1.store) (sym (first ∙ run_pod-none D now w config m e))
              (put_sandbox-IsLinked D L R w.store v id p spared (new_sandbox now config m id) fits
                (λ j a q out found own.
                  let (listing, here, lists) = l.home j a q out found in
                  cc (sym e ∙ ap (get_sandbox D w.store) (sym own) ∙ here))
                (λ j a q out found other. l.home j a q out found))
        | inr (pod, e) ↦
            subst (λ r. IsLinked D spared r.1.store)
              (sym (first ∙ run_pod-some D now w config m pod e)) l
      ]
