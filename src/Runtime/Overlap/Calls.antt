-- ===== src/Runtime/Overlap/Calls.antt =====
-- One call of CreateContainer, part by part.
use luna_for_mac.Base.{
  String, true, ◌≡◌, refl, ap, ◌∙◌, sym, Option, some, [], ◌∷◌, ◌++◌, ◌==◌, if◌then◌else◌,
  Bool-cases, inl, inr, Lacks,
}
use luna_for_mac.Base.Int.{int_eq}
use luna_for_mac.Path.{slash}
use luna_for_mac.Disk.{Diskv, IsLawful, IsReliable}
use luna_for_mac.Runtime.Container.{Container}
use luna_for_mac.Runtime.Sandbox
use luna_for_mac.Runtime.Sandbox.{Sandbox}
use luna_for_mac.Runtime.Records.{get_container, put_container, get_sandbox, put_sandbox}
use luna_for_mac.Runtime.Records.Laws.{
  get_container-put_container, get_container-put_sandbox, get_sandbox-put_sandbox,
  get_sandbox-put_container,
}
use luna_for_mac.Runtime.Types.{World, Outcome, ok, sandbox_ready}
use luna_for_mac.Runtime.Create.{Request, new_container, create_checked, create_container}
use luna_for_mac.Runtime.Create.Link.{link_mounts}
use luna_for_mac.Runtime.Create.Mounts.{link_mounts-Links}
use luna_for_mac.Runtime.Create.Created.{
  IsTyped, create_container-checked, create_in_pod-ready, new_container-Fits, appended-Fits,
}
use luna_for_mac.Runtime.Overlap.{Complete, pod_of, Creation, made, held, answered, advance}

abbrev pub cid_of : Complete → String
cid_of a = a.surroundings.cid

module _ (D : Diskv) where
  abbrev pub linked_world : World D → Complete → World D
  linked_world w a = (link_mounts D a.surroundings.link_calls w a.config.mounts).1

  abbrev pub container_of : Complete → Sandbox → Container
  container_of a pod = new_container D a.surroundings a.config a.metadata a.image pod (pod_of a)

  abbrev pub listing : Complete → Sandbox → Sandbox
  listing a pod = record pod { containers = pod.containers ++ cid_of a ∷ [] }

  -- The world after the second part, for the sandbox that the call holds.
  abbrev pub created : Complete → Sandbox → World D → World D
  created a pod w = record w {
    store =
        put_sandbox D (put_container D w.store (cid_of a) (container_of a pod)) (pod_of a)
          (listing a pod);
  }

  abbrev pub answer : Outcome String × World D → Creation × World D
  answer (r, v) = (answered r, v)

  parts_lem :
      (w : World D) (a : Complete)
      → let (call, w') = advance D w (made a) in
        advance D w' call
        ≡ answer (create_checked D a.surroundings w a.config a.metadata a.image a.sandbox)
  unfolding advance create_checked
  parts_lem w a = elim (Bool-cases (link_mounts D a.surroundings.link_calls w a.config.mounts).0) [
    | inl b ↦ rw b refl
    | inr b ↦ rw b refl
  ]

  -- A complete request: both parts of the call, one directly after the other, are CreateContainer.
  pub create_container_parts :
      (w : World D) (a : Complete)
      → a.config.metadata ≡ some a.metadata
      → a.config.image ≡ some a.image
      → let req : Request = record { config = some a.config; sandbox_metadata = some a.sandbox } in
        let (call, w') = advance D w (made a) in
        advance D w' call ≡ answer (create_container D a.surroundings w req)
  create_container_parts w a has_metadata has_image =
      parts_lem w a
      ∙ ap answer (
          sym (
            create_container-checked D a.surroundings w a.config a.metadata a.image a.sandbox
              has_metadata has_image))

  pub look_up :
      (w : World D) (a : Complete) (pod : Sandbox)
      → (link_mounts D a.surroundings.link_calls w a.config.mounts).0 ≡ true
      → get_sandbox D w.store (pod_of a) ≡ some pod
      → advance D w (made a) ≡ (held a (some pod), linked_world w a)
  unfolding advance
  look_up w a pod linked found =
      let same = (link_mounts-Links D a.surroundings.link_calls w a.config.mounts).same_store in
      rw linked
        (ap (λ o. (held a o, linked_world w a)) (ap (λ s. get_sandbox D s (pod_of a)) same ∙ found))

  pub finish :
      (w : World D) (a : Complete) (pod : Sandbox)
      → int_eq pod.state sandbox_ready ≡ true
      → advance D w (held a (some pod)) ≡ (answered (ok (cid_of a)), created a pod w)
  unfolding advance
  finish w a pod ready =
      rw (create_in_pod-ready D a.surroundings w a.config a.metadata a.image (pod_of a) pod ready)
        refl

module _ (D : Diskv) (L : IsLawful D) (R : IsReliable D) (w : World D) (a : Complete)
    (pod : Sandbox) (k : String) (plain_cid : Lacks slash (cid_of a))
    (plain_pod : Lacks slash (pod_of a)) (plain : Lacks slash k) where
  pub created-get_container :
      IsTyped a.surroundings a.config a.metadata
      → get_container D (created D a pod w).store k
        ≡ (if cid_of a == k then some (container_of D a pod) else get_container D w.store k)
  created-get_container t =
      let c = container_of D a pod in
      get_container-put_sandbox D L R (put_container D w.store (cid_of a) c) (pod_of a) k plain_pod
        plain (listing D a pod)
      ∙ get_container-put_container D L R w.store (cid_of a) k plain_cid plain c
          (new_container-Fits D a.surroundings a.config a.metadata a.image pod (pod_of a) t)

  pub created-get_sandbox :
      Sandbox.Fits pod
      → get_sandbox D (created D a pod w).store k
        ≡ (if pod_of a == k then some (listing D a pod) else get_sandbox D w.store k)
  created-get_sandbox fits =
      let c = container_of D a pod in
      get_sandbox-put_sandbox D L R (put_container D w.store (cid_of a) c) (pod_of a) k plain_pod
        plain (listing D a pod) (appended-Fits pod (pod.containers ++ cid_of a ∷ []) fits)
      ∙ ap (λ (old : Option Sandbox). if pod_of a == k then some (listing D a pod) else old)
          (get_sandbox-put_container D L R w.store (cid_of a) k plain_cid plain c)
