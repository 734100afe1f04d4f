-- ===== src/Runtime/Service/Shrinks.antt =====
-- What the calls other than CreateContainer do to the store: no container appears or moves to
-- another sandbox, and no list of a sandbox grows.
pub mod Ending
pub mod Steps
use mathlib.Core.Option.{some-injective}
use luna_for_mac.Base.{
  String, true, false, ◌≡◌, refl, sym, ap, subst, ◌∙◌, Option, none, some, List, [], ◌∷◌, ◌==◌,
  if◌then◌else◌, Lacks, eq_iff, contains,
}
use luna_for_mac.Path.{slash}
use luna_for_mac.Disk.{Diskv, IsLawful, IsReliable}
use luna_for_mac.Runtime.Container
use luna_for_mac.Runtime.Container.{Container}
use luna_for_mac.Runtime.Sandbox
use luna_for_mac.Runtime.Sandbox.{Sandbox}
use luna_for_mac.Runtime.Records.{
  get_container, put_container, delete_container, get_sandbox, put_sandbox, delete_sandbox,
}
use luna_for_mac.Runtime.Records.Laws.{
  get_container-put_container, get_container-delete_container, get_container-put_sandbox,
  get_container-delete_sandbox, get_sandbox-put_sandbox, get_sandbox-delete_sandbox,
  get_sandbox-put_container, get_sandbox-delete_container,
}
use luna_for_mac.Runtime.Service.Store.{written, erased}
use luna_for_mac.Runtime.Service.Linked.{IsListed}

module _ (D : Diskv) where
  -- Stored for that sandbox.
  abbrev pub IsOwned : D.State → String → String → Type 0
  IsOwned s j pod_id = (b : Container) × (get_container D s j ≡ some b) × (pod_id ≡ b.pod_id)

  pub record Shrinks (s t : D.State) : Type 0 where
    pub containers :
        (j : String) (c : Container)
        → Lacks slash j
        → get_container D t j ≡ some c
        → IsOwned s j c.pod_id
    pub sandboxes :
        (k j : String) (p : Sandbox)
        → Lacks slash k
        → get_sandbox D t k ≡ some p
        → contains p.containers j ≡ true
        → IsListed D s k j

  pub Shrinks-refl : (s : D.State) → Shrinks s s
  Shrinks-refl s = record {
    containers = λ j c q e. (c, e, refl);
    sandboxes = λ k j p q e l. (p, e, l);
  }

  pub Shrinks-trans : {s t u : D.State} → Shrinks s t → Shrinks t u → Shrinks s u
  Shrinks-trans a b = record {
    containers = λ j c q e.
        let (d, found, same) = b.containers j c q e in
        let (d', found', same') = a.containers j d q found in (d', found', same ∙ same');
    sandboxes = λ k j p q e l.
        let (p', found, l') = b.sandboxes k j p q e l in a.sandboxes k j p' q found l';
  }

module _ (D : Diskv) (L : IsLawful D) (R : IsReliable D) (s : D.State) (i : String)
    (plain : Lacks slash i) where
  pub put_container-Shrinks :
      (b c : Container)
      → Container.Fits c
      → get_container D s i ≡ some b
      → c.pod_id ≡ b.pod_id
      → Shrinks D s (put_container D s i c)
  put_container-Shrinks b c fits found same = record {
    containers = λ j a q e.
        written (λ (d : Container). IsOwned D s j d.pod_id) (i == j) c (get_container D s j) a
          (sym (get_container-put_container D L R s i j plain q c fits) ∙ e)
          (λ here. (b, ap (get_container D s) (sym ((eq_iff i j).0 here)) ∙ found, same))
          (λ d f. (d, f, refl));
    sandboxes = λ k j p q e l. (p, sym (get_sandbox-put_container D L R s i k plain q c) ∙ e, l);
  }

  pub delete_container-Shrinks : Shrinks D s (delete_container D s i)
  delete_container-Shrinks = record {
    containers = λ j a q e.
        erased (λ (d : Container). IsOwned D s j d.pod_id) (i == j) (get_container D s j) a
          (sym (get_container-delete_container D L R s i j plain q) ∙ e) (λ d f. (d, f, refl));
    sandboxes = λ k j p q e l. (p, sym (get_sandbox-delete_container D L R s i k plain q) ∙ e, l);
  }

  pub put_sandbox-Shrinks :
      (p : Sandbox)
      → Sandbox.Fits p
      → ((j : String) → contains p.containers j ≡ true → IsListed D s i j)
      → Shrinks D s (put_sandbox D s i p)
  put_sandbox-Shrinks p fits listed = record {
    containers = λ j a q e. (a, sym (get_container-put_sandbox D L R s i j plain q p) ∙ e, refl);
    sandboxes = λ k j a q e.
        written (λ (d : Sandbox). contains d.containers j ≡ true → IsListed D s k j) (i == k) p
          (get_sandbox D s k) a (sym (get_sandbox-put_sandbox D L R s i k plain q p fits) ∙ e)
          (λ here l. subst (λ n. IsListed D s n j) ((eq_iff i k).0 here) (listed j l))
          (λ d f l. (d, f, l));
  }

  pub delete_sandbox-Shrinks : Shrinks D s (delete_sandbox D s i)
  delete_sandbox-Shrinks = record {
    containers = λ j a q e. (a, sym (get_container-delete_sandbox D L R s i j plain q) ∙ e, refl);
    sandboxes = λ k j a q e.
        erased (λ (d : Sandbox). contains d.containers j ≡ true → IsListed D s k j) (i == k)
          (get_sandbox D s k) a (sym (get_sandbox-delete_sandbox D L R s i k plain q) ∙ e)
          (λ d f l. (d, f, l));
  }
