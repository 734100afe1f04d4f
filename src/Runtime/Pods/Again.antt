-- ===== src/Runtime/Pods/Again.antt =====
-- StopPodSandbox may be called again, as its comment asks for.
use luna_for_mac.Base.{
  String, ◌≡◌, refl, sym, ap, subst, ◌∙◌, some, ◌==◌, Lacks, All, Bool-cases, inl, inr, eq_iff,
}
use luna_for_mac.Path.{slash}
use luna_for_mac.Disk.{Diskv, IsLawful, IsReliable}
use luna_for_mac.Runtime.Sandbox.{Sandbox}
use luna_for_mac.Runtime.Types.{World, Outcome, ok}
use luna_for_mac.Runtime.Records.{get_container, get_sandbox, put_sandbox}
use luna_for_mac.Runtime.Records.Laws.{
  get_sandbox-put_sandbox, get_container-put_sandbox, get_sandbox-Fits,
}
use luna_for_mac.Runtime.Terminate.{Kill}
use luna_for_mac.Runtime.Terminate.Outcomes.{PlainWakes}
use luna_for_mac.Runtime.Pods.{close_all, terminate_sandbox_containers, stop_pod_sandbox}
use luna_for_mac.Runtime.Pods.Rounds.{emptied}
use luna_for_mac.Runtime.Pods.Closed.{stop_pod_sandbox-Closes}

module _ (D : Diskv) where
  -- Every record is what it was.
  pub record SameRecords (s t : D.State) : Type 0 where
    pub sandboxes : (k : String) → Lacks slash k → get_sandbox D t k ≡ get_sandbox D s k
    pub containers : (k : String) → Lacks slash k → get_container D t k ≡ get_container D s k

  abbrev pub ChangesNothing : World D → Outcome (Unit {0}) × World D → Type 0
  ChangesNothing v r = (r.0 ≡ ok tt) × (r.1.signals ≡ v.signals) × SameRecords v.store r.1.store

module _ (D : Diskv) (L : IsLawful D) (R : IsReliable D) where
  stop_emptied :
      (v : World D) (pod : Sandbox) (kills : String → Kill)
      → get_sandbox D v.store pod.id ≡ some (emptied pod)
      → stop_pod_sandbox D v pod.id kills
        ≡ (ok tt, record v { store = put_sandbox D v.store pod.id (emptied pod) })
  unfolding stop_pod_sandbox terminate_sandbox_containers close_all
  stop_emptied v pod kills found = rw (found, stop_pod_sandbox) refl

  put_again-SameRecords :
      (s : D.State) (id : String) (pod : Sandbox)
      → Lacks slash id
      → get_sandbox D s id ≡ some pod
      → SameRecords D s (put_sandbox D s id pod)
  put_again-SameRecords s id pod p found = record {
    sandboxes = λ k q.
        get_sandbox-put_sandbox D L R s id k p q pod (get_sandbox-Fits D s id pod found)
        ∙ (elim (Bool-cases (id == k)) [
          | inl e ↦ rw e (sym found ∙ ap (get_sandbox D s) ((eq_iff id k).0 e))
          | inr e ↦ rw e refl
        ]);
    containers = λ k q. get_container-put_sandbox D L R s id k p q pod;
  }

  closed_again :
      (v : World D) (pod : Sandbox) (kills : String → Kill)
      → Lacks slash pod.id
      → get_sandbox D v.store pod.id ≡ some (emptied pod)
      → ChangesNothing D v (stop_pod_sandbox D v pod.id kills)
  closed_again v pod kills p found =
      subst (ChangesNothing D v) (sym (stop_emptied v pod kills found))
        (refl, refl, put_again-SameRecords v.store pod.id (emptied pod) p found)

  -- Once StopPodSandbox of a sandbox that is stored under its id has succeeded, a further call
  -- succeeds as well, whatever the operating system would answer, sends no signal and changes no
  -- record under an id without a slash. The disk is lawful and reliable, the ids of the sandbox and
  -- of its containers hold no slash, and the exit codes are of their Go type.
  pub stop_pod_sandbox-ChangesNothing :
      (w : World D) (pod : Sandbox) (kills later : String → Kill)
      → ((id : String) → PlainWakes (kills id).wakes)
      → Lacks slash pod.id
      → All (Lacks slash) pod.containers
      → get_sandbox D w.store pod.id ≡ some pod
      → (stop_pod_sandbox D w pod.id kills).0 ≡ ok tt
      → ChangesNothing D
          (stop_pod_sandbox D w pod.id kills).1
          (stop_pod_sandbox D (stop_pod_sandbox D w pod.id kills).1 pod.id later)
  stop_pod_sandbox-ChangesNothing w pod kills later plain_kills p ps found fine =
      elim (stop_pod_sandbox-Closes D L R kills plain_kills w pod p ps found) [
        | inl (_, stored, _) ↦ closed_again (stop_pod_sandbox D w pod.id kills).1 pod later p stored
        | inr (other, _) ↦ absurd (other fine)
      ]
