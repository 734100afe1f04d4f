-- ===== src/Runtime/Service/Linked.antt =====
-- Stored containers and the lists of their sandboxes: that a container is in the list of its stored
-- sandbox, and how writes and deletions of records keep that.
pub mod Ending
pub mod Closing
pub mod Making
pub mod Reached
use mathlib.Core.Option.{some-injective}
use luna_for_mac.Base.{
  String, Bool, true, false, ◌≡◌, refl, sym, ap, subst, ◌∙◌, Option, none, some, List, [], ◌∷◌,
  ◌==◌, if◌then◌else◌, arith, Lacks, eq_iff, contains, Bool-cases, inl, inr,
}
use luna_for_mac.Path.{slash}
use luna_for_mac.Disk.{Diskv, IsLawful, IsReliable}
use luna_for_mac.Runtime.Container
use luna_for_mac.Runtime.Container.{Container}
use luna_for_mac.Runtime.Sandbox
use luna_for_mac.Runtime.Sandbox.{Sandbox}
use luna_for_mac.Runtime.Records.{
  get_container, put_container, delete_container, get_sandbox, put_sandbox, delete_sandbox,
}
use luna_for_mac.Runtime.Records.Laws.{
  get_container-put_container, get_container-delete_container, get_container-put_sandbox,
  get_container-delete_sandbox, get_sandbox-put_sandbox, get_sandbox-delete_sandbox,
  get_sandbox-put_container, get_sandbox-delete_container,
}
use luna_for_mac.Runtime.Service.{IsConsistent}
use luna_for_mac.Runtime.Service.Store.{written, erased}

module _ (D : Diskv) where
  -- The sandbox is stored and lists the container.
  abbrev pub IsListed : D.State → String → String → Type 0
  IsListed s pod_id j =
      (p : Sandbox) × (get_sandbox D s pod_id ≡ some p) × (contains p.containers j ≡ true)

  -- Every stored container is listed by its sandbox, but for those with the spared ids.
  pub record IsLinked (spared : List String) (s : D.State) : Type 0 where
    pub home :
        (j : String) (c : Container)
        → Lacks slash j
        → contains spared j ≡ false
        → get_container D s j ≡ some c
        → IsListed s c.pod_id j

  pub IsLinked-spare :
      (spared : List String) (id : String) (s : D.State)
      → IsLinked spared s
      → IsLinked (id ∷ spared) s
  IsLinked-spare spared id s h = record { home = λ j c q out e. h.home j c q (ground arith) e }

module _ (D : Diskv) (L : IsLawful D) (R : IsReliable D) (s : D.State) (v : IsConsistent D s)
    (i : String) (plain : Lacks slash i) where
  -- A list of one sandbox survives what is done to a container.
  IsListed-put_container :
      (c : Container) (k j : String)
      → Lacks slash k
      → IsListed D s k j
      → IsListed D (put_container D s i c) k j
  IsListed-put_container c k j q (p, found, lists) =
      (p, get_sandbox-put_container D L R s i k plain q c ∙ found, lists)

  pub put_container-IsLinked :
      (spared : List String) (c : Container)
      → Container.Fits c
      → Lacks slash c.pod_id
      → (contains spared i ≡ false → IsListed D s c.pod_id i)
      → IsLinked D spared s
      → IsLinked D spared (put_container D s i c)
  put_container-IsLinked spared c fits plain_pod own h = record {
    home = λ j a q out e.
        written (λ (d : Container). IsListed D (put_container D s i c) d.pod_id j) (i == j) c
          (get_container D s j) a (sym (get_container-put_container D L R s i j plain q c fits) ∙ e)
          (λ same.
            let here = (eq_iff i j).0 same in
            IsListed-put_container c c.pod_id j plain_pod (
              subst (IsListed D s c.pod_id) here
                (own (subst (λ k. contains spared k ≡ false) (sym here) out))))
          (λ d found.
            IsListed-put_container c d.pod_id j (v.containers j q d found).plain_pod
              (h.home j d q out found));
  }

  pub delete_container-IsLinked :
      (spared : List String)
      → IsLinked D (i ∷ spared) s
      → IsLinked D spared (delete_container D s i)
  delete_container-IsLinked spared h = record {
    home = λ j a q out e. elim (Bool-cases (i == j)) [
      | inl same ↦ cc (same, get_container-delete_container D L R s i j plain q, e)
      | inr other ↦
          let found : get_container D s j ≡ some a =
            ap (λ b. if b then none else get_container D s j) (sym other)
            ∙ sym (get_container-delete_container D L R s i j plain q)
            ∙ e in
          let (p, stored, lists) = h.home j a q (ground arith) found in
          (
            p,
            get_sandbox-delete_container D L R s i a.pod_id plain
                  (v.containers j q a found).plain_pod
                ∙ stored,
            lists,
          )
    ];
  }

  -- The new list has the containers of the sandbox, and the others are listed elsewhere.
  pub put_sandbox-IsLinked :
      (spared : List String) (p : Sandbox)
      → Sandbox.Fits p
      → ((j : String) (a : Container)
          → Lacks slash j
          → contains spared j ≡ false
          → get_container D s j ≡ some a
          → a.pod_id ≡ i
          → contains p.containers j ≡ true)
      → ((j : String) (a : Container)
          → Lacks slash j
          → contains spared j ≡ false
          → get_container D s j ≡ some a
          → (i == a.pod_id) ≡ false
          → IsListed D s a.pod_id j)
      → IsLinked D spared (put_sandbox D s i p)
  put_sandbox-IsLinked spared p fits at elsewhere = record {
    home = λ j a q out e.
        let found : get_container D s j ≡ some a =
          sym (get_container-put_sandbox D L R s i j plain q p) ∙ e in
        let r = (v.containers j q a found).plain_pod in
        let after = get_sandbox-put_sandbox D L R s i a.pod_id plain r p fits in
        elim (Bool-cases (i == a.pod_id)) [
          | inl same ↦ (
            p,
            after ∙ ap (λ b. if b then some p else get_sandbox D s a.pod_id) same,
            at j a q out found (sym ((eq_iff i a.pod_id).0 same)),
          )
          | inr other ↦
              let (pod, stored, lists) = elsewhere j a q out found other in
              (
                pod,
                after ∙ ap (λ b. if b then some p else get_sandbox D s a.pod_id) other ∙ stored,
                lists,
              )
        ];
  }

  -- A sandbox that lists nothing can go.
  pub delete_sandbox-IsLinked :
      (spared : List String) (p : Sandbox)
      → get_sandbox D s i ≡ some p
      → p.containers ≡ []
      → IsLinked D spared s
      → IsLinked D spared (delete_sandbox D s i)
  delete_sandbox-IsLinked spared p stored empty h = record {
    home = λ j a q out e.
        let found : get_container D s j ≡ some a =
          sym (get_container-delete_sandbox D L R s i j plain q) ∙ e in
        let r = (v.containers j q a found).plain_pod in
        let (pod, home, lists) = h.home j a q out found in
        elim (Bool-cases (i == a.pod_id)) [
          | inl same ↦
              let one : some pod ≡ some p =
                sym home ∙ ap (get_sandbox D s) (sym ((eq_iff i a.pod_id).0 same)) ∙ stored in
              let none_listed : pod.containers ≡ [] =
                ap (λ (d : Sandbox). d.containers) (some-injective _ _ one) ∙ empty in
              cc (lists, ap (λ ids. contains ids j) none_listed)
          | inr other ↦ (
            pod,
            get_sandbox-delete_sandbox D L R s i a.pod_id plain r
                ∙ ap (λ b. if b then none else get_sandbox D s a.pod_id) other
                ∙ home,
            lists,
          )
        ];
  }
