-- ===== src/Runtime/Pods/Run.antt =====
-- RunPodSandbox followed by PodSandboxStatus.
use luna_for_mac.Base.{String, ◌≡◌, refl, ◌∙◌, ap, none, some, Lacks, eq_refl}
use luna_for_mac.Base.Int.{ℤ}
use luna_for_mac.Path.{slash}
use luna_for_mac.Disk.{Diskv, IsLawful, IsReliable}
use luna_for_mac.Runtime.Sandbox
use luna_for_mac.Runtime.Sandbox.{Sandbox}
use luna_for_mac.Runtime.Types.{World, ok, err, pod_exists, sandbox_ready}
use luna_for_mac.Runtime.Create.{PodMetadata}
use luna_for_mac.Runtime.Records.{make_pod_id, get_sandbox, put_sandbox}
use luna_for_mac.Runtime.Records.Laws.{get_sandbox-put_sandbox}
use luna_for_mac.Runtime.Pods.{
  PodConfig, new_sandbox, status_of, run_pod, run_pod_sandbox, pod_sandbox_status,
}

module _ (D : Diskv) where
  pub run_pod_sandbox-some :
      (now : ℤ) (w : World D) (config : PodConfig) (metadata : PodMetadata)
      → config.metadata ≡ some metadata
      → run_pod_sandbox D now w (some config) ≡ run_pod D now w config metadata
  unfolding run_pod_sandbox run_pod
  run_pod_sandbox-some now w config metadata e = rw e refl

  pub run_pod-none :
      (now : ℤ) (w : World D) (config : PodConfig) (metadata : PodMetadata)
      → get_sandbox D w.store (make_pod_id metadata.namespace metadata.name) ≡ none
      → let pod_id = make_pod_id metadata.namespace metadata.name in
        run_pod D now w config metadata ≡ (
          ok pod_id,
          record w {
            store = put_sandbox D w.store pod_id (new_sandbox now config metadata pod_id);
          },
        )
  unfolding run_pod
  run_pod-none now w config metadata e = rw (e, run_pod) refl

  pub run_pod-some :
      (now : ℤ) (w : World D) (config : PodConfig) (metadata : PodMetadata) (pod : Sandbox)
      → get_sandbox D w.store (make_pod_id metadata.namespace metadata.name) ≡ some pod
      → run_pod D now w config metadata
        ≡ (err (pod_exists (make_pod_id metadata.namespace metadata.name)), w)
  unfolding run_pod
  run_pod-some now w config metadata pod e = rw (e, run_pod) refl

  pod_sandbox_status-some :
      (ip : String) (w : World D) (k : String) (pod : Sandbox)
      → get_sandbox D w.store k ≡ some pod
      → pod_sandbox_status D ip w k ≡ ok (status_of ip pod)
  unfolding pod_sandbox_status
  pod_sandbox_status-some ip w k pod e = rw (e, pod_sandbox_status) refl

  module _ (L : IsLawful D) (R : IsReliable D) where
    get_sandbox-run_pod_sandbox :
        (now : ℤ) (w : World D) (config : PodConfig) (metadata : PodMetadata)
        → config.metadata ≡ some metadata
        → Lacks slash (make_pod_id metadata.namespace metadata.name)
        → Sandbox.Fits
            (new_sandbox now config metadata (make_pod_id metadata.namespace metadata.name))
        → get_sandbox D w.store (make_pod_id metadata.namespace metadata.name) ≡ none
        → get_sandbox D
            (run_pod_sandbox D now w (some config)).1.store
            (make_pod_id metadata.namespace metadata.name)
          ≡ some (new_sandbox now config metadata (make_pod_id metadata.namespace metadata.name))
    get_sandbox-run_pod_sandbox now w config metadata e plain fits absent =
        let pod_id = make_pod_id metadata.namespace metadata.name in
        let pod = new_sandbox now config metadata pod_id in
        ap (λ r. get_sandbox D r.1.store pod_id)
          (run_pod_sandbox-some now w config metadata e ∙ run_pod-none now w config metadata absent)
        ∙ get_sandbox-put_sandbox D L R w.store pod_id pod_id plain plain pod fits
        ∙ rw (eq_refl pod_id) refl

    -- When a request with metadata, with values of their Go types, names a sandbox that is not
    -- stored, RunPodSandbox answers with the id made of the namespace and the name, and
    -- PodSandboxStatus of that id then answers with the request's metadata, labels and annotations,
    -- the time of the call and the state ready. The disk is lawful and reliable, and the ids hold
    -- no slash.
    pub pod_sandbox_status-run_pod_sandbox :
        (ip : String) (now : ℤ) (w : World D) (config : PodConfig) (metadata : PodMetadata)
        → config.metadata ≡ some metadata
        → Lacks slash (make_pod_id metadata.namespace metadata.name)
        → Sandbox.Fits
            (new_sandbox now config metadata (make_pod_id metadata.namespace metadata.name))
        → get_sandbox D w.store (make_pod_id metadata.namespace metadata.name) ≡ none
        → ((run_pod_sandbox D now w (some config)).0
            ≡ ok (make_pod_id metadata.namespace metadata.name))
          × (pod_sandbox_status D ip
                (run_pod_sandbox D now w (some config)).1
                (make_pod_id metadata.namespace metadata.name)
              ≡ ok (record {
                id = metadata.uid;
                metadata = metadata;
                state = sandbox_ready;
                created_at = now;
                ip = ip;
                labels = config.labels;
                annotations = config.annotations;
              }))
    pod_sandbox_status-run_pod_sandbox ip now w config metadata e plain fits absent =
        let pod_id = make_pod_id metadata.namespace metadata.name in
        (
          ap (λ r. r.0)
              (run_pod_sandbox-some now w config metadata e
                ∙ run_pod-none now w config metadata absent),
          pod_sandbox_status-some ip (run_pod_sandbox D now w (some config)).1 pod_id
              (new_sandbox now config metadata pod_id)
              (get_sandbox-run_pod_sandbox now w config metadata e plain fits absent),
        )

    -- When RunPodSandbox has made a sandbox that was not stored, from values of their Go types,
    -- every later request that makes the same id of its namespace and name is refused, whatever
    -- else it holds, and changes nothing. The disk is lawful and reliable, and the ids hold no
    -- slash.
    pub run_pod_sandbox_again :
        (now now' : ℤ) (w : World D) (config config' : PodConfig) (metadata metadata' : PodMetadata)
        → config.metadata ≡ some metadata
        → config'.metadata ≡ some metadata'
        → make_pod_id metadata'.namespace metadata'.name
          ≡ make_pod_id metadata.namespace metadata.name
        → Lacks slash (make_pod_id metadata.namespace metadata.name)
        → Sandbox.Fits
            (new_sandbox now config metadata (make_pod_id metadata.namespace metadata.name))
        → get_sandbox D w.store (make_pod_id metadata.namespace metadata.name) ≡ none
        → run_pod_sandbox D now' (run_pod_sandbox D now w (some config)).1 (some config') ≡ (
          err (pod_exists (make_pod_id metadata.namespace metadata.name)),
          (run_pod_sandbox D now w (some config)).1,
        )
    run_pod_sandbox_again now now' w config config' metadata metadata' e e' same plain fits absent =
        let pod_id = make_pod_id metadata.namespace metadata.name in
        let w' = (run_pod_sandbox D now w (some config)).1 in
        run_pod_sandbox-some now' w' config' metadata' e'
        ∙ run_pod-some now' w' config' metadata' (new_sandbox now config metadata pod_id) (
            ap (get_sandbox D w'.store) same
            ∙ get_sandbox-run_pod_sandbox now w config metadata e plain fits absent)
        ∙ ap (λ i. (err (pod_exists i), w')) same
