-- ===== src/Runtime/Overlap/Pool/Kept.antt =====
-- What the steps keep of the calls that are under way.
use luna_for_mac.Base.{
  String, false, ◌≡◌, refl, sym, ap, subst, ◌∙◌, Option, none, some, [], ◌∷◌, ◌++◌, ◌==◌,
  if◌then◌else◌, arith, Lacks, All-append, contains, contains-append, Bool-cases, inl, inr, eq_iff,
}
use luna_for_mac.Path.{slash}
use luna_for_mac.Disk.{Diskv, IsLawful, IsReliable}
use luna_for_mac.Runtime.Container.{Container}
use luna_for_mac.Runtime.Sandbox.{Sandbox}
use luna_for_mac.Runtime.Records.{put_container, get_container, get_sandbox}
use luna_for_mac.Runtime.Records.Laws.{get_container-put_container}
use luna_for_mac.Runtime.Types.{World}
use luna_for_mac.Runtime.Create.Created.{new_container-Fits, appended-Fits}
use luna_for_mac.Runtime.Overlap.{Complete, pod_of, Creation, made, held, answered}
use luna_for_mac.Runtime.Overlap.Calls.{
  cid_of, container_of, listing, created, created-get_container, created-get_sandbox,
}
use luna_for_mac.Runtime.Overlap.Pool.{
  Pool, with_call, held_list, IsPending, IsProper, IsUnlisted, IsHeld, IsPrepared, IsCalm,
}
use luna_for_mac.Runtime.Service.{IsConsistent}
use luna_for_mac.Runtime.Service.Store.{
  written, put_container-IsConsistent, put_sandbox-IsConsistent,
}
use luna_for_mac.Runtime.Service.Ending.{listing-IsSoundPod}
use luna_for_mac.Runtime.Service.Making.{
  new_container-IsSound, Distinct-append_new, appended-belongs,
}
use luna_for_mac.Runtime.Service.Shrinks.{Shrinks}

-- No stored sandbox lists a call that has yet to write.
pub IsPrepared-IsUnlisted :
    (D : Diskv) (s : D.State) (i : String) (call : Option Creation)
    → IsPending call
    → IsPrepared D s i call
    → IsUnlisted D s i
IsPrepared-IsUnlisted D s i (some (made a)) p (same, proper, u) = u
IsPrepared-IsUnlisted D s i (some (held a none)) p (same, proper, u) = u
IsPrepared-IsUnlisted D s i (some (held a (some pod))) p (same, proper, u, d) = u
IsPrepared-IsUnlisted D s i (some (answered r)) p h = absurd p
IsPrepared-IsUnlisted D s i none p h = absurd p

module _ (D : Diskv) (s t : D.State) (h : Shrinks D s t) where
  IsUnlisted-Shrinks : (i : String) → IsUnlisted D s i → IsUnlisted D t i
  IsUnlisted-Shrinks i u = record {
    unlisted = λ k p q e. elim (Bool-cases (contains p.containers i)) [
      | inr b ↦ b
      | inl b ↦
          let (p', found, lists) = h.sandboxes k i p q e b in cc (lists, u.unlisted k p' q found)
    ];
  }

  IsHeld-Shrinks : (k : String) (pod : Sandbox) → IsHeld D s k pod → IsHeld D t k pod
  IsHeld-Shrinks k pod d = record {
    sound = d.sound;
    fits = d.fits;
    own = λ j c q e l. let (b, found, same) = h.containers j c q e in same ∙ d.own j b q found l;
  }

  IsPrepared-Shrinks :
      (i : String) (call : Option Creation) → IsPrepared D s i call → IsPrepared D t i call
  IsPrepared-Shrinks i none p = tt
  IsPrepared-Shrinks i (some (made a)) (same, proper, u) = (same, proper, IsUnlisted-Shrinks i u)
  IsPrepared-Shrinks i (some (held a none)) (same, proper, u) =
      (same, proper, IsUnlisted-Shrinks i u)
  IsPrepared-Shrinks i (some (held a (some pod))) (same, proper, u, d) =
      (same, proper, IsUnlisted-Shrinks i u, IsHeld-Shrinks (pod_of a) pod d)
  IsPrepared-Shrinks i (some (answered r)) p = tt

  pub IsCalm-Shrinks : (pool : Pool) → IsConsistent D t → IsCalm D s pool → IsCalm D t pool
  IsCalm-Shrinks pool v c = record {
    consistent = v;
    calls = λ i. IsPrepared-Shrinks i (pool i) (c.calls i);
    apart = c.apart;
  }

module _ (D : Diskv) (s t : D.State) (pool : Pool) (i : String) (call : Creation) where
  -- One call has changed, and with it perhaps the store.
  pub with_call-IsCalm :
      IsConsistent D t
      → IsCalm D s pool
      → IsPrepared D t i (some call)
      → ((j : String) → (i == j) ≡ false → IsPrepared D t j (pool j))
      → (IsPending (some call) → (j : String) → contains (held_list (pool j)) i ≡ false)
      → (IsPending (some call) → contains (held_list (some call)) i ≡ false)
      → ((j : String)
          → (i == j) ≡ false
          → IsPending (pool j)
          → contains (held_list (some call)) j ≡ false)
      → IsCalm D t (with_call pool i call)
  with_call-IsCalm v c new others mine own theirs = record {
    consistent = v;
    calls = λ j. elim (Bool-cases (i == j)) [
      | inl e ↦ rw e (subst (λ k. IsPrepared D t k (some call)) ((eq_iff i j).0 e) new)
      | inr e ↦ rw e (others j e)
    ];
    apart = λ k j pending. elim (Bool-cases (i == k)) [
      | inl e ↦
          let p : IsPending (some call) = rw e at pending in
          let here = (eq_iff i k).0 e in
          elim (Bool-cases (i == j)) [
            | inl f ↦ rw f (subst (λ n. contains (held_list (some call)) n ≡ false) here (own p))
            | inr f ↦ rw f (subst (λ n. contains (held_list (pool j)) n ≡ false) here (mine p j))
          ]
      | inr e ↦
          let p : IsPending (pool k) = rw e at pending in
          elim (Bool-cases (i == j)) [ inl f ↦ rw f (theirs k e p) | inr f ↦ rw f (c.apart k j p) ]
    ];
  }

module _ (D : Diskv) (L : IsLawful D) (R : IsReliable D) (w : World D) (a : Complete)
    (pod : Sandbox) (proper : IsProper a) (u : IsUnlisted D w.store (cid_of a))
    (d : IsHeld D w.store (pod_of a) pod) (out : contains pod.containers (cid_of a) ≡ false) where
  pub created-IsConsistent : IsConsistent D w.store → IsConsistent D (created D a pod w).store
  created-IsConsistent v =
      let c = container_of D a pod in
      let s = put_container D w.store (cid_of a) c in
      let ids = pod.containers ++ cid_of a ∷ [] in
      let fits =
        new_container-Fits D a.surroundings a.config a.metadata a.image pod (pod_of a)
          proper.typed in
      let v1 =
        put_container-IsConsistent D L R w.store v (cid_of a) proper.plain c fits
          (new_container-IsSound D L R a.surroundings a.config a.metadata a.image pod (pod_of a)
            proper.plain_pod)
          (λ k p q e l. cc (l, u.unlisted k p q e)) in
      put_sandbox-IsConsistent D L R s v1 (pod_of a) proper.plain_pod (listing D a pod)
        (appended-Fits pod ids d.fits)
        (listing-IsSoundPod (pod_of a) pod ids d.sound
          (All-append (Lacks slash) pod.containers (cid_of a ∷ []) d.sound.plain (proper.plain, tt))
          (Distinct-append_new pod.containers (cid_of a) d.sound.distinct out))
        (λ j b q e l.
          let after =
            get_container-put_container D L R w.store (cid_of a) j proper.plain q c fits in
          appended-belongs D L R s (cid_of a) j c b pod (pod_of a) (get_container D w.store j) after
            refl
            (λ listed. elim (Bool-cases (cid_of a == j)) [
              | inl same ↦
                  cc (out, ap (contains pod.containers) ((eq_iff (cid_of a) j).0 same), listed)
              | inr other ↦
                  d.own j b q
                    (sym (after ∙ ap (λ x. if x then some c else get_container D w.store j) other)
                      ∙ e)
                    listed
            ])
            e l)

  -- A call other than the one that wrote.
  module _ (j : String) (other : (cid_of a == j) ≡ false) where
    created-IsUnlisted :
        contains pod.containers j ≡ false
        → IsUnlisted D w.store j
        → IsUnlisted D (created D a pod w).store j
    created-IsUnlisted absent before = record {
      unlisted = λ k p q e.
          written (λ (x : Sandbox). contains x.containers j ≡ false) (pod_of a == k)
            (listing D a pod) (get_sandbox D w.store k) p
            (sym (created-get_sandbox D L R w a pod k proper.plain proper.plain_pod q d.fits) ∙ e)
            (λ here. contains-append pod.containers (cid_of a ∷ []) j ∙ ground arith)
            (λ x found. before.unlisted k x q found);
    }

    created-IsHeld :
        (k : String) (held_pod : Sandbox)
        → contains held_pod.containers (cid_of a) ≡ false
        → IsHeld D w.store k held_pod
        → IsHeld D (created D a pod w).store k held_pod
    created-IsHeld k held_pod absent before = record {
      sound = before.sound;
      fits = before.fits;
      own = λ n c q e l.
          written (λ (x : Container). x.pod_id ≡ k) (cid_of a == n) (container_of D a pod)
            (get_container D w.store n) c
            (sym
                (created-get_container D L R w a pod n proper.plain proper.plain_pod q proper.typed)
              ∙ e)
            (λ same.
              cc (absent, ap (contains held_pod.containers) ((eq_iff (cid_of a) n).0 same), l))
            (λ x found. before.own n x q found l);
    }

    pub created-IsPrepared :
        (call : Option Creation)
        → (IsPending call → contains pod.containers j ≡ false)
        → contains (held_list call) (cid_of a) ≡ false
        → IsPrepared D w.store j call
        → IsPrepared D (created D a pod w).store j call
    created-IsPrepared none absent mine p = tt
    created-IsPrepared (some (made b)) absent mine (same, ready, before) =
        (same, ready, created-IsUnlisted (absent tt) before)
    created-IsPrepared (some (held b none)) absent mine (same, ready, before) =
        (same, ready, created-IsUnlisted (absent tt) before)
    created-IsPrepared (some (held b (some x))) absent mine (same, ready, before, h) =
        (same, ready, created-IsUnlisted (absent tt) before, created-IsHeld (pod_of b) x mine h)
    created-IsPrepared (some (answered r)) absent mine p = tt
