-- ===== src/Runtime/Service/Store.antt =====
-- Writing sound records and deleting records keeps a store consistent.
use mathlib.Core.Option.{some-injective}
use luna_for_mac.Base.{
  String, Bool, true, false, ◌≡◌, refl, sym, subst, ◌∙◌, Option, none, some, ◌==◌, if◌then◌else◌,
  Lacks, eq_iff, contains,
}
use luna_for_mac.Path.{slash}
use luna_for_mac.Disk.{Diskv, IsLawful, IsReliable}
use luna_for_mac.Runtime.Container
use luna_for_mac.Runtime.Container.{Container}
use luna_for_mac.Runtime.Sandbox
use luna_for_mac.Runtime.Sandbox.{Sandbox}
use luna_for_mac.Runtime.Records.{
  get_container, put_container, delete_container, get_sandbox, put_sandbox, delete_sandbox,
}
use luna_for_mac.Runtime.Records.Laws.{
  get_container-put_container, get_container-delete_container, get_container-put_sandbox,
  get_container-delete_sandbox, get_sandbox-put_sandbox, get_sandbox-delete_sandbox,
  get_sandbox-put_container, get_sandbox-delete_container,
}
use luna_for_mac.Runtime.Service.{IsSound, IsSoundPod, IsConsistent}

module _ {A : Type 0} (P : A → Type 0) where
  -- What a map holds after a write, and after an erasure.
  pub written :
      (b : Bool) (c : A) (o : Option A) (a : A)
      → (if b then some c else o) ≡ some a
      → (b ≡ true → P c)
      → ((a' : A) → o ≡ some a' → P a')
      → P a
  written true c o a h new old = subst P (some-injective _ _ h) (new refl)
  written false c o a h new old = old a h

  pub erased :
      (b : Bool) (o : Option A) (a : A)
      → (if b then none else o) ≡ some a
      → ((a' : A) → o ≡ some a' → P a')
      → P a
  erased true o a h old = cc
  erased false o a h old = old a h

module _ (D : Diskv) (L : IsLawful D) (R : IsReliable D) (s : D.State) (v : IsConsistent D s)
    (i : String) (plain : Lacks slash i) where
  pub put_container-IsConsistent :
      (c : Container)
      → Container.Fits c
      → IsSound i c
      → ((k : String) (p : Sandbox)
          → Lacks slash k
          → get_sandbox D s k ≡ some p
          → contains p.containers i ≡ true
          → c.pod_id ≡ k)
      → IsConsistent D (put_container D s i c)
  put_container-IsConsistent c fits sound own = record {
    containers = λ k p a h.
        written (IsSound k) (i == k) c (get_container D s k) a
          (sym (get_container-put_container D L R s i k plain p c fits) ∙ h)
          (λ e. subst (λ j. IsSound j c) ((eq_iff i k).0 e) sound) (v.containers k p);
    sandboxes =
        λ k p a h. v.sandboxes k p a (sym (get_sandbox-put_container D L R s i k plain p c) ∙ h);
    belongs = λ j k p q a b h g lists.
        let same = sym (get_sandbox-put_container D L R s i k plain q c) ∙ g in
        written (λ (d : Container). d.pod_id ≡ k) (i == j) c (get_container D s j) a
          (sym (get_container-put_container D L R s i j plain p c fits) ∙ h)
          (λ e.
            own k b q same
              (subst (λ l. contains b.containers l ≡ true) (sym ((eq_iff i j).0 e)) lists))
          (λ d f. v.belongs j k p q d b f same lists);
  }

  pub put_sandbox-IsConsistent :
      (c : Sandbox)
      → Sandbox.Fits c
      → IsSoundPod i c
      → ((j : String) (a : Container)
          → Lacks slash j
          → get_container D s j ≡ some a
          → contains c.containers j ≡ true
          → a.pod_id ≡ i)
      → IsConsistent D (put_sandbox D s i c)
  put_sandbox-IsConsistent c fits sound own = record {
    containers =
        λ k p a h. v.containers k p a (sym (get_container-put_sandbox D L R s i k plain p c) ∙ h);
    sandboxes = λ k p a h.
        written (IsSoundPod k) (i == k) c (get_sandbox D s k) a
          (sym (get_sandbox-put_sandbox D L R s i k plain p c fits) ∙ h)
          (λ e. subst (λ j. IsSoundPod j c) ((eq_iff i k).0 e) sound) (v.sandboxes k p);
    belongs = λ j k p q a b h g lists.
        let same = sym (get_container-put_sandbox D L R s i j plain p c) ∙ h in
        written (λ (d : Sandbox). contains d.containers j ≡ true → a.pod_id ≡ k) (i == k) c
          (get_sandbox D s k) b (sym (get_sandbox-put_sandbox D L R s i k plain q c fits) ∙ g)
          (λ e l. own j a p same l ∙ (eq_iff i k).0 e) (λ d f l. v.belongs j k p q a d same f l)
          lists;
  }

  pub delete_container-IsConsistent : IsConsistent D (delete_container D s i)
  delete_container-IsConsistent = record {
    containers = λ k p a h.
        erased (IsSound k) (i == k) (get_container D s k) a
          (sym (get_container-delete_container D L R s i k plain p) ∙ h) (v.containers k p);
    sandboxes =
        λ k p a h. v.sandboxes k p a (sym (get_sandbox-delete_container D L R s i k plain p) ∙ h);
    belongs = λ j k p q a b h g lists.
        erased (λ (d : Container). d.pod_id ≡ k) (i == j) (get_container D s j) a
          (sym (get_container-delete_container D L R s i j plain p) ∙ h)
          (λ d f.
            v.belongs j k p q d b f (sym (get_sandbox-delete_container D L R s i k plain q) ∙ g)
              lists);
  }

  pub delete_sandbox-IsConsistent : IsConsistent D (delete_sandbox D s i)
  delete_sandbox-IsConsistent = record {
    containers =
        λ k p a h. v.containers k p a (sym (get_container-delete_sandbox D L R s i k plain p) ∙ h);
    sandboxes = λ k p a h.
        erased (IsSoundPod k) (i == k) (get_sandbox D s k) a
          (sym (get_sandbox-delete_sandbox D L R s i k plain p) ∙ h) (v.sandboxes k p);
    belongs = λ j k p q a b h g lists.
        erased (λ (d : Sandbox). contains d.containers j ≡ true → a.pod_id ≡ k) (i == k)
          (get_sandbox D s k) b (sym (get_sandbox-delete_sandbox D L R s i k plain q) ∙ g)
          (λ d f l.
            v.belongs j k p q a d (sym (get_container-delete_sandbox D L R s i j plain p) ∙ h) f l)
          lists;
  }
