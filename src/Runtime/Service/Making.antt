-- ===== src/Runtime/Service/Making.antt =====
-- CreateContainer keeps the store consistent.
use mathlib.Core.Option.{some-injective}
use luna_for_mac.Base.{
  ap, ◌==◌, if◌then◌else◌, String, true, false, ◌≡◌, refl, sym, subst, ◌∙◌, Option, none, some,
  List, [], ◌∷◌, ◌++◌, arith, Lacks, All-append, Distinct, contains, contains-append, Bool-cases,
  inl, inr, eq_iff,
}
use luna_for_mac.Base.Int.{int_eq}
use luna_for_mac.Path.{slash}
use luna_for_mac.Disk.{Diskv, IsLawful, IsReliable}
use luna_for_mac.Runtime.Container.{Container}
use luna_for_mac.Runtime.Sandbox.{Sandbox}
use luna_for_mac.Runtime.Records.{make_pod_id, get_container, put_container, get_sandbox}
use luna_for_mac.Runtime.Records.Laws.{
  get_container-put_container, get_sandbox-put_container, get_sandbox-Fits,
}
use luna_for_mac.Runtime.Types.{World, sandbox_ready}
use luna_for_mac.Runtime.Create.{
  Surroundings, Request, Config, Metadata, PodMetadata, new_container, create_in_pod,
  create_checked, create_container,
}
use luna_for_mac.Runtime.Create.Link.{link_mounts}
use luna_for_mac.Runtime.Create.Mounts.{link_mounts-Links, create_container_cases}
use luna_for_mac.Runtime.Create.Created.{IsTyped, new_container-Fits, appended-Fits}
use luna_for_mac.Runtime.Service.{IsSound, IsConsistent, IsFresh, IsTypedRequest, IsPlainSandbox}
use luna_for_mac.Runtime.Service.Store.{put_container-IsConsistent, put_sandbox-IsConsistent}
use luna_for_mac.Runtime.Service.Ending.{listing-IsSoundPod}

pub Distinct-append_new :
    (ids : List String) (id : String)
    → Distinct ids
    → contains ids id ≡ false
    → Distinct (ids ++ id ∷ [])
Distinct-append_new [] id d h = (refl, tt)
Distinct-append_new (x ∷ ids) id d h = (
  contains-append ids (id ∷ []) x ∙ ground (arith, eq_iff x id, eq_iff id x),
  Distinct-append_new ids id d.1 (ground arith),
)

module _ (D : Diskv) (L : IsLawful D) (R : IsReliable D) where
  pub new_container-IsSound :
      (o : Surroundings) (config : Config) (m : Metadata) (image : String) (pod : Sandbox)
      (pod_id : String)
      → Lacks slash pod_id
      → IsSound o.cid (new_container D o config m image pod pod_id)
  new_container-IsSound o config m image pod pod_id p = record {
    own_id = refl;
    plain_pod = p;
    has_process = λ r. cc;
    finish_unset = refl;
    known_state = inl refl;
  }

  -- The new container belongs to the sandbox to whose list it was appended.
  pub appended-belongs :
      (s : D.State) (cid j : String) (c a : Container) (pod : Sandbox) (pod_id : String)
      (o : Option Container)
      → get_container D s j ≡ (if cid == j then some c else o)
      → c.pod_id ≡ pod_id
      → (contains pod.containers j ≡ true → a.pod_id ≡ pod_id)
      → get_container D s j ≡ some a
      → contains (pod.containers ++ cid ∷ []) j ≡ true
      → a.pod_id ≡ pod_id
  appended-belongs s cid j c a pod pod_id o at own old g l = elim (Bool-cases (cid == j)) [
    | inl e ↦
        let same : some a ≡ some c = sym g ∙ at ∙ ap (λ b. if b then some c else o) e in
        ap (λ (d : Container). d.pod_id) (some-injective _ _ same) ∙ own
    | inr e ↦ old (sym (contains-append pod.containers (cid ∷ []) j ∙ ground arith) ∙ l)
  ]

  create_in_pod-IsConsistent :
      (o : Surroundings) (w : World D) (config : Config) (m : Metadata) (image pod_id : String)
      (pod : Option Sandbox)
      → IsFresh D w.store o.cid
      → IsTyped o config m
      → Lacks slash pod_id
      → get_sandbox D w.store pod_id ≡ pod
      → IsConsistent D w.store
      → IsConsistent D (create_in_pod D o w config m image pod_id pod).1.store
  unfolding create_in_pod
  create_in_pod-IsConsistent o w config m image pod_id none fresh t p e v = v
  create_in_pod-IsConsistent o w config m image pod_id (some pod) fresh t p e v =
      elim (Bool-cases (int_eq pod.state sandbox_ready)) [
        | inr f ↦ rw f v
        | inl f ↦
            let c = new_container D o config m image pod pod_id in
            let s = put_container D w.store o.cid c in
            let fits = new_container-Fits D o config m image pod pod_id t in
            let v1 =
              put_container-IsConsistent D L R w.store v o.cid fresh.plain c fits
                (new_container-IsSound o config m image pod pod_id p)
                (λ k b q g l. cc (l, fresh.unlisted k b g)) in
            let sound = v.sandboxes pod_id p pod e in
            let ids = pod.containers ++ o.cid ∷ [] in
            rw f (
              put_sandbox-IsConsistent D L R s v1 pod_id p (record pod { containers = ids })
                (appended-Fits pod ids (get_sandbox-Fits D w.store pod_id pod e))
                (listing-IsSoundPod pod_id pod ids sound
                  (All-append (Lacks slash) pod.containers (o.cid ∷ []) sound.plain
                    (fresh.plain, tt))
                  (Distinct-append_new pod.containers o.cid sound.distinct
                    (fresh.unlisted pod_id pod e)))
                (λ j a q g l.
                  appended-belongs s o.cid j c a pod pod_id _
                    (get_container-put_container D L R w.store o.cid j fresh.plain q c fits) refl
                    (λ b.
                      v1.belongs j pod_id q p a pod g
                        (get_sandbox-put_container D L R w.store o.cid pod_id fresh.plain p c ∙ e)
                        b)
                    g l))
      ]

  create_checked-IsConsistent :
      (o : Surroundings) (w : World D) (config : Config) (m : Metadata) (image : String)
      (sandbox : PodMetadata)
      → IsFresh D w.store o.cid
      → IsTyped o config m
      → Lacks slash (make_pod_id sandbox.namespace sandbox.name)
      → IsConsistent D w.store
      → IsConsistent D (create_checked D o w config m image sandbox).1.store
  unfolding create_checked
  create_checked-IsConsistent o w config m image sandbox fresh t p v =
      let r = link_mounts D o.link_calls w config.mounts in
      let same = sym (link_mounts-Links D o.link_calls w config.mounts).same_store in
      let v1 = subst (IsConsistent D) same v in
      let pod_id = make_pod_id sandbox.namespace sandbox.name in
      elim (Bool-cases r.0) [
        | inr b ↦ rw b v1
        | inl b ↦ rw b (
            create_in_pod-IsConsistent o r.1 config m image pod_id (get_sandbox D r.1.store pod_id)
              (subst (λ s. IsFresh D s o.cid) same fresh) t p refl v1)
      ]

  pub create_container-IsConsistent :
      (o : Surroundings) (w : World D) (req : Request)
      → IsFresh D w.store o.cid
      → IsTypedRequest o req
      → IsPlainSandbox req.sandbox_metadata
      → IsConsistent D w.store
      → IsConsistent D (create_container D o w req).1.store
  create_container-IsConsistent o w req fresh typed plain v =
      create_container_cases D (λ r. IsConsistent D r.1.store) o w req (λ e. v)
        (λ config m i s has_config has_metadata has_sandbox.
          create_checked-IsConsistent o w config m i s fresh
            (typed config m has_config has_metadata) (subst IsPlainSandbox has_sandbox plain) v)
