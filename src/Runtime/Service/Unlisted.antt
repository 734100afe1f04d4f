-- ===== src/Runtime/Service/Unlisted.antt =====
-- RemoveContainer leaves no sandbox that lists the container.
use mathlib.Core.Option.{some-injective}
use luna_for_mac.Base.{
  String, true, false, ◌≡◌, refl, sym, ap, subst, ◌∙◌, Option, none, some, List, [], ◌∷◌, ◌==◌,
  arith, if◌then◌else◌, Lacks, Distinct, contains, Bool-cases, inl, inr, eq_iff,
}
use luna_for_mac.Base.Int.{pos}
use luna_for_mac.Path.{slash}
use luna_for_mac.Disk.{Diskv, IsLawful, IsReliable}
use luna_for_mac.Runtime.Container.{Container}
use luna_for_mac.Runtime.Sandbox.{Sandbox}
use luna_for_mac.Runtime.Records.{get_container, get_sandbox, put_sandbox}
use luna_for_mac.Runtime.Records.Laws.{
  get_sandbox-put_sandbox, get_sandbox-delete_container, get_sandbox-Fits,
}
use luna_for_mac.Runtime.Types.{World, Outcome, ok, err, waiting}
use luna_for_mac.Runtime.Terminate.{Kill, terminate_container}
use luna_for_mac.Runtime.Terminate.Outcomes.{PlainWakes, terminate_container-Keeps}
use luna_for_mac.Runtime.Stop
use luna_for_mac.Runtime.Stop.{remove_first, detach, remove_found, remove_container}
use luna_for_mac.Runtime.Pods.Rounds.{list-Fits}
use luna_for_mac.Runtime.Service.{IsConsistent}

pub remove_first_gone :
    (cid : String) (ids : List String) → Distinct ids → contains (remove_first cid ids) cid ≡ false
unfolding remove_first
remove_first_gone cid [] h = refl
remove_first_gone cid (id ∷ ids) h = elim (Bool-cases (id == cid)) [
  | inl e ↦ rw e (ap (contains ids) (sym ((eq_iff id cid).0 e)) ∙ h.0)
  | inr e ↦ ground (arith, remove_first_gone cid ids h.1)
]

module _ (D : Diskv) (L : IsLawful D) (R : IsReliable D) where
  removed_after-get_sandbox :
      (cid k : String) (r : Outcome (Unit {0}) × World D)
      → Lacks slash cid
      → Lacks slash k
      → get_sandbox D (Stop.removed_after D cid r).1.store k ≡ get_sandbox D r.1.store k
  unfolding Stop.removed_after
  removed_after-get_sandbox cid k (ok u, w) p q =
      get_sandbox-delete_container D L R w.store cid k p q
  removed_after-get_sandbox cid k (err e, w) p q = refl
  removed_after-get_sandbox cid k (waiting, w) p q = refl

  -- No sandbox lists the container after it was detached from its own.
  detach_unlists :
      (s : D.State) (cid k : String) (c : Container) (o : Option Sandbox) (p : Sandbox)
      → Lacks slash cid
      → Lacks slash k
      → IsConsistent D s
      → get_container D s cid ≡ some c
      → get_sandbox D s c.pod_id ≡ o
      → get_sandbox D (detach D s c.pod_id cid o) k ≡ some p
      → contains p.containers cid ≡ false
  unfolding detach
  detach_unlists s cid k c none p plain q v found own after =
      elim (Bool-cases (contains p.containers cid)) [
        | inr b ↦ b
        | inl b ↦
            let home = v.belongs cid k plain q c p found after b in
            cc (sym own ∙ ap (get_sandbox D s) home ∙ after)
      ]
  detach_unlists s cid k c (some pod) p plain q v found own after =
      let sound = v.sandboxes c.pod_id (v.containers cid plain c found).plain_pod pod own in
      let home : contains p.containers cid ≡ true → get_sandbox D s k ≡ some p → c.pod_id ≡ k =
        λ b g. v.belongs cid k plain q c p found g b in
      elim (Bool-cases (contains p.containers cid)) [
        | inr b ↦ b
        | inl b ↦ elim (Bool-cases (contains pod.containers cid)) [
          | inr f ↦
              let there : get_sandbox D s k ≡ some p = rw f at after in
              let same =
                some-injective _ _ (sym own ∙ ap (get_sandbox D s) (home b there) ∙ there) in
              ap (λ (d : Sandbox). contains d.containers cid) (sym same) ∙ f
          | inl f ↦
              let shorter : Sandbox = record pod { containers = remove_first cid pod.containers } in
              let there : get_sandbox D (put_sandbox D s c.pod_id shorter) k ≡ some p =
                rw f at after in
              let new =
                sym (
                  get_sandbox-put_sandbox D L R s c.pod_id k
                    (v.containers cid plain c found).plain_pod q shorter
                    (list-Fits pod _ (get_sandbox-Fits D s c.pod_id pod own)))
                ∙ there in
              elim (Bool-cases (c.pod_id == k)) [
                | inl e ↦
                    let same : some shorter ≡ some p =
                      ap (λ x. if x then some shorter else get_sandbox D s k) (sym e) ∙ new in
                    ap (λ (d : Sandbox). contains d.containers cid) (sym (some-injective _ _ same))
                    ∙ remove_first_gone cid pod.containers sound.distinct
                | inr e ↦
                    let old : get_sandbox D s k ≡ some p =
                      ap (λ x. if x then some shorter else get_sandbox D s k) (sym e) ∙ new in
                    cc (e, (eq_iff c.pod_id k).1 (home b old))
              ]
        ]
      ]

  -- In a consistent store, no sandbox lists a stored container any more after RemoveContainer of
  -- it, whatever the call answers, also where it fails or still waits. The disk is lawful and
  -- reliable, the ids hold no slash, and the exit codes are of their Go type.
  pub remove_container_unlists :
      (w : World D) (cid k : String) (kill : Kill) (c : Container) (p : Sandbox)
      → Lacks slash cid
      → Lacks slash k
      → PlainWakes kill.wakes
      → IsConsistent D w.store
      → get_container D w.store cid ≡ some c
      → get_sandbox D (remove_container D w cid kill).1.store k ≡ some p
      → contains p.containers cid ≡ false
  unfolding remove_container remove_found
  remove_container_unlists w cid k kill c p plain q wakes v found after =
      let home = get_sandbox D w.store c.pod_id in
      let w' : World D = record w { store = detach D w.store c.pod_id cid home } in
      let r = terminate_container D (pos 0) w' c kill in
      let taken : get_sandbox D (Stop.removed_after D cid r).1.store k ≡ some p =
        subst (λ o. get_sandbox D (remove_found D w cid kill o).1.store k ≡ some p) found after in
      detach_unlists w.store cid k c home p plain q v found refl (
        sym ((terminate_container-Keeps D L R (pos 0) w' c kill wakes).sandboxes k q)
        ∙ sym (removed_after-get_sandbox cid k r plain q)
        ∙ taken)
