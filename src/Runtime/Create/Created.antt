-- ===== src/Runtime/Create/Created.antt =====
-- What CreateContainer leaves in the store, when it fails and when it succeeds.
use luna_for_mac.Base.{
  String, true, ◌≡◌, refl, ◌∙◌, ap, Option, none, some, List, [], ◌∷◌, ◌++◌, ◌==◌, if◌then◌else◌,
  arith, Bool-cases, inl, inr, Lacks,
}
use luna_for_mac.Base.Int.{pos, int_eq, is_uint32, is_int64}
use luna_for_mac.Path.{slash, join_path_elements}
use luna_for_mac.Json.{DistinctKeys}
use luna_for_mac.Disk.{Diskv, IsLawful, IsReliable}
use luna_for_mac.Runtime.Container
use luna_for_mac.Runtime.Container.{Container}
use luna_for_mac.Runtime.Sandbox
use luna_for_mac.Runtime.Sandbox.{Sandbox}
use luna_for_mac.Runtime.Types.{World, Outcome, ok, err, Error, sandbox_ready, container_created}
use luna_for_mac.Runtime.Records.{
  get_container, put_container, get_sandbox, put_sandbox, make_pod_id,
}
use luna_for_mac.Runtime.Records.Laws.{
  get_container-put_container, get_container-put_sandbox, get_sandbox-put_sandbox,
  get_sandbox-put_container, get_sandbox-Fits,
}
use luna_for_mac.Runtime.Create.{
  Surroundings, Request, Config, Metadata, PodMetadata, create_in_pod, create_checked, create_parts,
  create_container, new_container,
}
use luna_for_mac.Runtime.Create.Env.{make_env_list}
use luna_for_mac.Runtime.Create.Link.{link_mounts}
use luna_for_mac.Runtime.Create.Mounts.{link_mounts-Links, create_container_cases}

-- The parts of a request and of its surroundings are values of their Go types.
pub record IsTyped (o : Surroundings) (config : Config) (metadata : Metadata) : Type 0 where
  pub attempt : is_uint32 metadata.attempt ≡ true
  pub now : is_int64 o.now ≡ true
  pub labels : DistinctKeys config.labels
  pub annotations : DistinctKeys config.annotations

module _ (D : Diskv) where
  abbrev FailsClean : World D → Outcome String × World D → Type 0
  FailsClean w (r, v) = (e : Error) → r ≡ err e → v.store ≡ w.store

  create_in_pod_fails :
      (o : Surroundings) (w : World D) (config : Config) (metadata : Metadata)
      (image pod_id : String) (pod : Option Sandbox)
      → FailsClean w (create_in_pod D o w config metadata image pod_id pod)
  unfolding create_in_pod
  create_in_pod_fails o w config metadata image pod_id none e h = refl
  create_in_pod_fails o w config metadata image pod_id (some pod) e h =
      elim (Bool-cases (int_eq pod.state sandbox_ready)) [
        | inl f ↦ absurd (ground arith)
        | inr f ↦ rw f refl
      ]

  create_checked_fails :
      (o : Surroundings) (w : World D) (config : Config) (metadata : Metadata) (image : String)
      (sandbox : PodMetadata)
      → FailsClean w (create_checked D o w config metadata image sandbox)
  unfolding create_checked
  create_checked_fails o w config metadata image sandbox =
      let r = link_mounts D o.link_calls w config.mounts in
      let l = link_mounts-Links D o.link_calls w config.mounts in
      let pod_id = make_pod_id sandbox.namespace sandbox.name in
      elim (Bool-cases r.0) [
        | inl b ↦ rw b (λ e h.
            create_in_pod_fails o r.1 config metadata image pod_id (get_sandbox D r.1.store pod_id)
              e h
            ∙ l.same_store)
        | inr b ↦ rw b (λ e h. l.same_store)
      ]

  -- When CreateContainer answers with an error, no record of the store has changed: neither a
  -- container nor the list of a sandbox.
  pub create_container_fails :
      (o : Surroundings) (w : World D) (req : Request) (e : Error)
      → (create_container D o w req).0 ≡ err e
      → (create_container D o w req).1.store ≡ w.store
  create_container_fails o w req =
      create_container_cases D (FailsClean w) o w req (λ e e' h. refl)
        (λ config m i s _ _ _. create_checked_fails o w config m i s)

  pub create_container-checked :
      (o : Surroundings) (w : World D) (config : Config) (metadata : Metadata) (image : String)
      (sandbox : PodMetadata)
      → config.metadata ≡ some metadata
      → config.image ≡ some image
      → create_container D o w (record { config = some config; sandbox_metadata = some sandbox })
        ≡ create_checked D o w config metadata image sandbox
  unfolding create_container create_parts
  create_container-checked o w config metadata image sandbox e f =
      λ i. create_parts D o w config (e i) (f i) (some sandbox)

  create_checked-found :
      (o : Surroundings) (w : World D) (config : Config) (metadata : Metadata) (image : String)
      (sandbox : PodMetadata) (pod : Sandbox)
      → (link_mounts D o.link_calls w config.mounts).0 ≡ true
      → get_sandbox D w.store (make_pod_id sandbox.namespace sandbox.name) ≡ some pod
      → create_checked D o w config metadata image sandbox
        ≡ create_in_pod D o
            (link_mounts D o.link_calls w config.mounts).1
            config
            metadata
            image
            (make_pod_id sandbox.namespace sandbox.name)
            (some pod)
  unfolding create_checked
  create_checked-found o w config metadata image sandbox pod linked found =
      let pod_id = make_pod_id sandbox.namespace sandbox.name in
      let w1 = (link_mounts D o.link_calls w config.mounts).1 in
      let same = (link_mounts-Links D o.link_calls w config.mounts).same_store in
      rw linked (
        ap (create_in_pod D o w1 config metadata image pod_id)
          (ap (λ s. get_sandbox D s pod_id) same ∙ found))

  pub create_in_pod-ready :
      (o : Surroundings) (w : World D) (config : Config) (metadata : Metadata)
      (image pod_id : String) (pod : Sandbox)
      → int_eq pod.state sandbox_ready ≡ true
      → create_in_pod D o w config metadata image pod_id (some pod) ≡ (
        ok o.cid,
        record w {
          store =
              put_sandbox D
                (put_container D w.store o.cid (new_container D o config metadata image pod pod_id))
                pod_id
                (record pod { containers = pod.containers ++ o.cid ∷ [] });
        },
      )
  unfolding create_in_pod
  create_in_pod-ready o w config metadata image pod_id pod ready = rw ready refl

  pub new_container-Fits :
      (o : Surroundings) (config : Config) (metadata : Metadata) (image : String) (pod : Sandbox)
      (pod_id : String)
      → IsTyped o config metadata
      → Container.Fits (new_container D o config metadata image pod pod_id)
  new_container-Fits o config metadata image pod pod_id t = record {
    attempt = t.attempt;
    pid = refl;
    created_at = t.now;
    started_at = refl;
    finished_at = refl;
    exit_code = refl;
    state = refl;
    labels = t.labels;
    annotations = t.annotations;
  }

pub appended-Fits :
    (pod : Sandbox) (ids : List String)
    → Sandbox.Fits pod
    → Sandbox.Fits (record pod { containers = ids })
appended-Fits pod ids f = record {
  attempt = f.attempt;
  created_at = f.created_at;
  state = f.state;
  labels = f.labels;
  annotations = f.annotations;
}

-- The container that a request asks for: what its configuration names, the environment made of the
-- defaults and the request's own, a log file in the sandbox's log directory if the request names one,
-- and neither a process nor a time of start yet.
abbrev pub requested : Surroundings → Config → Metadata → String → Sandbox → String → Container
requested o config metadata image pod pod_id = record {
  id = o.cid;
  pod_id = pod_id;
  name = metadata.name;
  attempt = metadata.attempt;
  args = config.args;
  command = config.command;
  env = make_env_list config.envs o.hostname;
  working_dir = config.working_dir;
  log_path =
      if config.log_path == "" then "" else join_path_elements pod.log_directory config.log_path;
  pid = pos 0;
  created_at = o.now;
  started_at = pos 0;
  finished_at = pos 0;
  exit_code = pos 0;
  image = image;
  state = container_created;
  labels = config.labels;
  annotations = config.annotations;
}

module _ (D : Diskv) (L : IsLawful D) (R : IsReliable D) where
  -- A complete request for a stored and ready sandbox, with values of their Go types, whose mounts
  -- could all be linked, succeeds with the new id. The container is then in the store, created and
  -- not started, with the request's metadata, image, command, arguments, working directory, labels
  -- and annotations, its environment over the defaults, its log path in the sandbox's log directory,
  -- the sandbox's id and the time of the call; its id ends the sandbox's list; and no other container or
  -- sandbox has changed. The disk is lawful and reliable, and the ids hold no slash.
  pub create_container_succeeds :
      (o : Surroundings) (w : World D) (config : Config) (metadata : Metadata) (image : String)
      (sandbox : PodMetadata) (pod : Sandbox) (k : String)
      → IsTyped o config metadata
      → config.metadata ≡ some metadata
      → config.image ≡ some image
      → (link_mounts D o.link_calls w config.mounts).0 ≡ true
      → get_sandbox D w.store (make_pod_id sandbox.namespace sandbox.name) ≡ some pod
      → int_eq pod.state sandbox_ready ≡ true
      → Lacks slash o.cid
      → Lacks slash (make_pod_id sandbox.namespace sandbox.name)
      → Lacks slash k
      → let pod_id = make_pod_id sandbox.namespace sandbox.name in
        let req : Request = record { config = some config; sandbox_metadata = some sandbox } in
        let (answer, v) = create_container D o w req in
        (answer ≡ ok o.cid)
        × (get_container D v.store k ≡ (
            if o.cid == k
            then some (requested o config metadata image pod pod_id)
            else get_container D w.store k))
        × (get_sandbox D v.store k ≡ (
            if pod_id == k
            then some (record pod { containers = pod.containers ++ o.cid ∷ [] })
            else get_sandbox D w.store k))
  create_container_succeeds o w config metadata image sandbox pod k t has_metadata has_image linked
        found ready plain_cid plain_pod plain_k =
      let pod_id = make_pod_id sandbox.namespace sandbox.name in
      let w1 = (link_mounts D o.link_calls w config.mounts).1 in
      let same = (link_mounts-Links D o.link_calls w config.mounts).same_store in
      let c = new_container D o config metadata image pod pod_id in
      let pod' : Sandbox = record pod { containers = pod.containers ++ o.cid ∷ [] } in
      let s1 = put_container D w1.store o.cid c in
      rw
        (
          create_container-checked D o w config metadata image sandbox has_metadata has_image,
          create_checked-found D o w config metadata image sandbox pod linked found,
          create_in_pod-ready D o w1 config metadata image pod_id pod ready,
        )
        (
          refl,
          get_container-put_sandbox D L R s1 pod_id k plain_pod plain_k pod'
              ∙ get_container-put_container D L R w1.store o.cid k plain_cid plain_k c
                  (new_container-Fits D o config metadata image pod pod_id t)
              ∙ ap (λ s. if o.cid == k then some c else get_container D s k) same,
          get_sandbox-put_sandbox D L R s1 pod_id k plain_pod plain_k pod' (
                appended-Fits pod (pod.containers ++ o.cid ∷ [])
                  (get_sandbox-Fits D w.store pod_id pod found))
              ∙ ap (λ (old : Option Sandbox). if pod_id == k then some pod' else old)
                  (get_sandbox-put_container D L R w1.store o.cid k plain_cid plain_k c
                    ∙ ap (λ s. get_sandbox D s k) same),
        )
