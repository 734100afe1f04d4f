-- ===== src/Runtime/Pods/Closed.antt =====
-- What StopPodSandbox and RemovePodSandbox leave in the store.
use luna_for_mac.Base.{
  String, Bool, true, false, ◌≡◌, ◌≢◌, refl, ◌∙◌, sym, ap, subst, ◌⊎◌, inl, inr, none, some, List,
  [], ◌∷◌, arith, Lacks, eq_refl, All,
}
use luna_for_mac.Path.{slash}
use luna_for_mac.Disk.{Diskv, IsLawful, IsReliable}
use luna_for_mac.Runtime.Sandbox
use luna_for_mac.Runtime.Sandbox.{Sandbox}
use luna_for_mac.Runtime.Types.{World, Outcome, ok, err, waiting, Error}
use luna_for_mac.Runtime.Records.{get_container, get_sandbox, delete_sandbox}
use luna_for_mac.Runtime.Records.Laws.{
  get_sandbox-Fits, get_sandbox-delete_sandbox, get_container-delete_sandbox,
}
use luna_for_mac.Runtime.Terminate.{Kill}
use luna_for_mac.Runtime.Terminate.Outcomes.{PlainWakes}
use luna_for_mac.Runtime.Pods.{
  close_container, put_list, close_all, terminate_sandbox_containers, stop_pod_sandbox,
  remove_pod_sandbox, removed_after,
}
use luna_for_mac.Runtime.Pods.Rounds.{
  IsAbsent, emptied, list-Fits, emptied-Fits, close_container-Round, Closes, put_sandbox-IsAbsent,
  put_sandbox-found,
}

pub Outcome-cases :
    (r : Outcome (Unit {0}))
    → (r ≡ ok tt) ⊎ (r ≢ ok tt) × (((e : Error) × (r ≡ err e)) ⊎ (r ≡ waiting))
Outcome-cases (ok tt) = inl refl
Outcome-cases (err e) = inr (λ h. ground arith, inl (e, refl))
Outcome-cases waiting = inr (λ h. ground arith, inr refl)

module _ (D : Diskv) (L : IsLawful D) (R : IsReliable D) (kills : String → Kill)
    (plain_kills : (id : String) → PlainWakes (kills id).wakes) where
  stopped_short :
      (r next : Outcome (Unit {0}) × World D)
      → (((e : Error) × (r.0 ≡ err e)) ⊎ (r.0 ≡ waiting))
      → ◌≡◌ {A = Outcome (Unit {0}) × World D}
          (elim r.0 [ ok _ ↦ next | err e ↦ (err e, r.1) | waiting ↦ (waiting, r.1) ])
          r
  stopped_short (ok u, v) next (inl (e, h)) = cc
  stopped_short (ok u, v) next (inr h) = cc
  stopped_short (err e, v) next h = refl
  stopped_short (waiting, v) next h = refl

  -- A round that was cut short ends the loop.
  pub close_all-stopped :
      (force : Bool) (w : World D) (pod : Sandbox) (id : String) (ids : List String)
      → let r = close_container D force w id (kills id) (get_container D w.store id) in
        (((e : Error) × (r.0 ≡ err e)) ⊎ (r.0 ≡ waiting))
        → close_all D force w pod (id ∷ ids) kills ≡ r
  unfolding close_all
  close_all-stopped force w pod id ids h =
      let r = close_container D force w id (kills id) (get_container D w.store id) in
      stopped_short r (close_all D force (put_list D r.1 pod ids) pod ids kills) h

  pub close_all-next :
      (force : Bool) (w : World D) (pod : Sandbox) (id : String) (ids : List String)
      → let r = close_container D force w id (kills id) (get_container D w.store id) in
        r.0 ≡ ok tt
        → close_all D force w pod (id ∷ ids) kills
          ≡ close_all D force (put_list D r.1 pod ids) pod ids kills
  unfolding close_all
  close_all-next force w pod id ids h = rw (h, close_all) refl

  close_all-IsAbsent :
      (force : Bool) (w : World D) (pod : Sandbox) (ids : List String) (k : String)
      → Lacks slash pod.id
      → All (Lacks slash) ids
      → Lacks slash k
      → IsAbsent D w.store k
      → IsAbsent D (close_all D force w pod ids kills).1.store k
  close_all-IsAbsent force w pod [] k p ps q h =
      unfold close_all in put_sandbox-IsAbsent D L R w.store pod.id k (emptied pod) p q h
  close_all-IsAbsent force w pod (id ∷ ids) k p ps q h =
      let r = close_container D force w id (kills id) (get_container D w.store id) in
      let round =
        close_container-Round D L R force w id (kills id) (get_container D w.store id) ps.0
          (plain_kills id) refl in
      let left = round.keeps.absent k q h in
      elim (Outcome-cases r.0) [
        | inl e ↦ rw (close_all-next force w pod id ids e) (
            close_all-IsAbsent force (put_list D r.1 pod ids) pod ids k p ps.1 q (
              put_sandbox-IsAbsent D L R r.1.store pod.id k (record pod { containers = ids }) p q
                left))
        | inr (_, e) ↦ rw (close_all-stopped force w pod id ids e) left
      ]

  pub close_all-Closes :
      (force : Bool) (w : World D) (pod : Sandbox) (ids : List String)
      → Lacks slash pod.id
      → All (Lacks slash) ids
      → Sandbox.Fits pod
      → get_sandbox D w.store pod.id ≡ some (record pod { containers = ids })
      → Closes D L R pod ids (close_all D force w pod ids kills)
  close_all-Closes force w pod [] p ps f found =
      unfold close_all in
      inl (refl, put_sandbox-found D L R w.store pod.id (emptied pod) p (emptied-Fits pod f), tt)
  close_all-Closes force w pod (id ∷ ids) p ps f found =
      let r = close_container D force w id (kills id) (get_container D w.store id) in
      let round =
        close_container-Round D L R force w id (kills id) (get_container D w.store id) ps.0
          (plain_kills id) refl in
      let w' = put_list D r.1 pod ids in
      let pod' : Sandbox = record pod { containers = ids } in
      elim (Outcome-cases r.0) [
        | inl e ↦
            let gone_id =
              close_all-IsAbsent force w' pod ids id p ps.1 ps.0
                (put_sandbox-IsAbsent D L R r.1.store pod.id id pod' p ps.0 (round.gone e)) in
            subst (Closes D L R pod (id ∷ ids)) (sym (close_all-next force w pod id ids e))
              (elim (close_all-Closes force w' pod ids p ps.1 f
                (put_sandbox-found D L R r.1.store pod.id pod' p (list-Fits pod ids f))) [
                  | inl (done, record_now, gone) ↦ inl (done, record_now, (gone_id, gone))
                  | inr (short, (gone, cut, left, parts, stored, record_now, all_gone)) ↦ inr (
                    short,
                    (
                      id ∷ gone,
                      cut,
                      left,
                      ap (◌∷◌ id) parts,
                      stored,
                      record_now,
                      (gone_id, all_gone),
                    ),
                  )
                ])
        | inr (short, e) ↦
            subst (Closes D L R pod (id ∷ ids)) (sym (close_all-stopped force w pod id ids e)) (
              inr (
                short,
                ([], id, ids, refl, round.stored short, round.keeps.sandboxes pod.id p ∙ found, tt),
              ))
      ]

  stop_found :
      (w : World D) (pod : Sandbox)
      → get_sandbox D w.store pod.id ≡ some pod
      → stop_pod_sandbox D w pod.id kills ≡ close_all D false w pod pod.containers kills
  unfolding stop_pod_sandbox terminate_sandbox_containers
  stop_found w pod found = rw (found, stop_pod_sandbox) refl

  -- StopPodSandbox of a sandbox that is stored under its id either succeeds, and has emptied its
  -- list, marked it as not ready and removed every container that it listed from the store, or it
  -- does not: it failed or waits. Then some container of the list is still stored, the containers
  -- before it in the list are gone from the store, and the list that is stored now begins with it
  -- and goes on as before, the rest of the sandbox's record unchanged, so that the next call goes on
  -- where this one ended. The processes that exit meanwhile are of containers whose ids hold no slash, with
  -- codes of Go's type. The disk is lawful and reliable, and the ids hold no slash.
  pub stop_pod_sandbox-Closes :
      (w : World D) (pod : Sandbox)
      → Lacks slash pod.id
      → All (Lacks slash) pod.containers
      → get_sandbox D w.store pod.id ≡ some pod
      → Closes D L R pod pod.containers (stop_pod_sandbox D w pod.id kills)
  stop_pod_sandbox-Closes w pod p ps found =
      subst (Closes D L R pod pod.containers) (sym (stop_found w pod found)) (
        close_all-Closes false w pod pod.containers p ps
          (get_sandbox-Fits D w.store pod.id pod found) found)

  deleted-IsAbsent :
      (s : D.State) (pod_id : String) (ids : List String)
      → Lacks slash pod_id
      → All (Lacks slash) ids
      → All (IsAbsent D s) ids
      → All (IsAbsent D (delete_sandbox D s pod_id)) ids
  deleted-IsAbsent s pod_id [] p ps h = tt
  deleted-IsAbsent s pod_id (id ∷ ids) p ps h = (
    get_container-delete_sandbox D L R s pod_id id p ps.0 ∙ h.0,
    deleted-IsAbsent s pod_id ids p ps.1 h.1,
  )

  abbrev IsGone : Sandbox → Outcome (Unit {0}) × World D → Type 0
  IsGone pod (r, v) =
      r ≡ ok tt → (get_sandbox D v.store pod.id ≡ none) × All (IsAbsent D v.store) pod.containers

  removed_after-IsGone :
      (pod : Sandbox) (t : Outcome (Unit {0}) × World D)
      → Lacks slash pod.id
      → All (Lacks slash) pod.containers
      → Closes D L R pod pod.containers t
      → IsGone pod (removed_after D pod.id t)
  unfolding removed_after
  removed_after-IsGone pod (ok tt, v) p ps (inl (_, _, gone)) h = (
    get_sandbox-delete_sandbox D L R v.store pod.id pod.id p p ∙ rw (eq_refl pod.id) refl,
    deleted-IsAbsent v.store pod.id pod.containers p ps gone,
  )
  removed_after-IsGone pod (ok tt, v) p ps (inr (short, _)) h = absurd (short refl)
  removed_after-IsGone pod (err e, v) p ps c h = absurd (ground arith)
  removed_after-IsGone pod (waiting, v) p ps c h = absurd (ground arith)

  remove_found :
      (w : World D) (pod : Sandbox)
      → get_sandbox D w.store pod.id ≡ some pod
      → remove_pod_sandbox D w pod.id kills
        ≡ removed_after D pod.id (close_all D true w pod pod.containers kills)
  unfolding remove_pod_sandbox terminate_sandbox_containers
  remove_found w pod found = rw (found, remove_pod_sandbox) refl

  -- Once RemovePodSandbox of a sandbox that is stored under its id has answered without an error,
  -- the sandbox and every container that its record listed are gone from the store. The processes that exit
  -- meanwhile are of containers whose ids hold no slash, with codes of Go's type. The disk is
  -- lawful and reliable, and the ids hold no slash.
  pub remove_pod_sandbox_removes :
      (w : World D) (pod : Sandbox)
      → Lacks slash pod.id
      → All (Lacks slash) pod.containers
      → get_sandbox D w.store pod.id ≡ some pod
      → (remove_pod_sandbox D w pod.id kills).0 ≡ ok tt
      → let v = (remove_pod_sandbox D w pod.id kills).1 in
        (get_sandbox D v.store pod.id ≡ none) × All (IsAbsent D v.store) pod.containers
  remove_pod_sandbox_removes w pod p ps found =
      subst (IsGone pod) (sym (remove_found w pod found)) (
        removed_after-IsGone pod (close_all D true w pod pod.containers kills) p ps (
          close_all-Closes true w pod pod.containers p ps
            (get_sandbox-Fits D w.store pod.id pod found) found))
