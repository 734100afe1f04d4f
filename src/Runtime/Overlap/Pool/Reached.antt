-- ===== src/Runtime/Overlap/Pool/Reached.antt =====
-- In every state that overlapping calls and exits lead to, the store is consistent.
use luna_for_mac.Base.{
  String, true, false, ◌≡◌, refl, sym, ap, subst, ◌∙◌, Option, none, some, contains, Bool-cases,
  inl, inr,
}
use luna_for_mac.Base.Int.{int_eq}
use luna_for_mac.Disk.{Diskv, IsLawful, IsReliable}
use luna_for_mac.Runtime.Sandbox.{Sandbox}
use luna_for_mac.Runtime.Records.{get_sandbox}
use luna_for_mac.Runtime.Records.Laws.{get_sandbox-Fits}
use luna_for_mac.Runtime.Types.{World, Outcome, sandbox_ready}
use luna_for_mac.Runtime.Create.{create_in_pod}
use luna_for_mac.Runtime.Create.Link.{link_mounts}
use luna_for_mac.Runtime.Create.Mounts.{link_mounts-Links}
use luna_for_mac.Runtime.Overlap.{Complete, pod_of, Creation, made, held, answered, advance}
use luna_for_mac.Runtime.Overlap.Calls.{cid_of, linked_world, created, finish}
use luna_for_mac.Runtime.Overlap.Pool.{
  Pool, with_call, held_list, IsPending, IsPrepared, IsCalm, Move, arrives, goes_on, another, Moves,
  at_once, after,
}
use luna_for_mac.Runtime.Overlap.Pool.Kept.{
  IsPrepared-IsUnlisted, IsCalm-Shrinks, with_call-IsCalm, created-IsConsistent, created-IsPrepared,
}
use luna_for_mac.Runtime.Service.{IsConsistent}
use luna_for_mac.Runtime.Service.Reached.{Step-IsConsistent}
use luna_for_mac.Runtime.Service.Shrinks.Steps.{Step-Shrinks}

module _ (D : Diskv) (L : IsLawful D) (R : IsReliable D) where
  answered-IsCalm :
      (s : D.State) (pool : Pool) (i : String) (r : Outcome String)
      → IsCalm D s pool
      → IsCalm D s (with_call pool i (answered r))
  answered-IsCalm s pool i r c =
      with_call-IsCalm D s s pool i (answered r) c.consistent c tt (λ j e. c.calls j)
        (λ p. absurd p) (λ p. absurd p) (λ j e p. refl)

  -- A call that has looked up its sandbox.
  held-IsCalm :
      (s : D.State) (pool : Pool) (a : Complete) (o : Option Sandbox)
      → get_sandbox D s (pod_of a) ≡ o
      → pool (cid_of a) ≡ some (made a)
      → IsCalm D s pool
      → IsCalm D s (with_call pool (cid_of a) (held a o))
  held-IsCalm s pool a none found here c =
      let pending : IsPending (pool (cid_of a)) = subst IsPending (sym here) tt in
      with_call-IsCalm D s s pool (cid_of a) (held a none) c.consistent c
        (subst (IsPrepared D s (cid_of a)) here (c.calls (cid_of a))) (λ j e. c.calls j)
        (λ p j. c.apart (cid_of a) j pending) (λ p. refl) (λ j e p. refl)
  held-IsCalm s pool a (some pod) found here c =
      let i = cid_of a in
      let pending : IsPending (pool i) = subst IsPending (sym here) tt in
      let (_, proper, u) = subst (IsPrepared D s i) here (c.calls i) in
      let q = proper.plain_pod in
      let v = c.consistent in
      with_call-IsCalm D s s pool i (held a (some pod)) v c
        (
          refl,
          proper,
          u,
          record {
            sound = v.sandboxes (pod_of a) q pod found;
            fits = get_sandbox-Fits D s (pod_of a) pod found;
            own = λ j x p e l. v.belongs j (pod_of a) p q x pod e found l;
          },
        )
        (λ j e. c.calls j) (λ p j. c.apart i j pending) (λ p. u.unlisted (pod_of a) pod q found)
        (λ j e p.
          (IsPrepared-IsUnlisted D s j (pool j) p (c.calls j)).unlisted (pod_of a) pod q found)

  -- A call that writes.
  created-IsCalm :
      (w : World D) (pool : Pool) (a : Complete) (pod : Sandbox) (r : Outcome String)
      → pool (cid_of a) ≡ some (held a (some pod))
      → IsCalm D w.store pool
      → IsCalm D (created D a pod w).store (with_call pool (cid_of a) (answered r))
  created-IsCalm w pool a pod r here c =
      let i = cid_of a in
      let pending : IsPending (pool i) = subst IsPending (sym here) tt in
      let held_here : held_list (pool i) ≡ pod.containers = ap held_list here in
      let (_, proper, u, d) = subst (IsPrepared D w.store i) here (c.calls i) in
      let own : contains pod.containers i ≡ false =
        ap (λ ids. contains ids i) (sym held_here) ∙ c.apart i i pending in
      with_call-IsCalm D w.store (created D a pod w).store pool i (answered r)
        (created-IsConsistent D L R w a pod proper u d own c.consistent) c tt
        (λ j e.
          created-IsPrepared D L R w a pod proper u d own j e (pool j)
            (λ p. ap (λ ids. contains ids j) (sym held_here) ∙ c.apart j i p) (c.apart i j pending)
            (c.calls j))
        (λ p. absurd p) (λ p. absurd p) (λ j e p. refl)

  -- The first part of a call, and the second part without a sandbox.
  looks_up :
      (w : World D) (a : Complete)
      → (link_mounts D a.surroundings.link_calls w a.config.mounts).0 ≡ true
      → advance D w (made a)
        ≡ (held a (get_sandbox D (linked_world D w a).store (pod_of a)), linked_world D w a)
  unfolding advance
  looks_up w a b = rw b refl

  fails_to_link :
      (w : World D) (a : Complete)
      → (link_mounts D a.surroundings.link_calls w a.config.mounts).0 ≡ false
      → (r : Outcome String) × (advance D w (made a) ≡ (answered r, linked_world D w a))
  unfolding advance
  fails_to_link w a b = rw b (_, refl)

  finds_none :
      (w : World D) (a : Complete)
      → (r : Outcome String) × (advance D w (held a none) ≡ (answered r, w))
  unfolding advance create_in_pod
  finds_none w a = (_, refl)

  finds_unready :
      (w : World D) (a : Complete) (pod : Sandbox)
      → int_eq pod.state sandbox_ready ≡ false
      → (r : Outcome String) × (advance D w (held a (some pod)) ≡ (answered r, w))
  unfolding advance create_in_pod
  finds_unready w a pod b = rw b (_, refl)

  answers_again : (w : World D) (r : Outcome String) → advance D w (answered r) ≡ (answered r, w)
  unfolding advance
  answers_again w r = refl

  abbrev IsCalmAfter : Pool → String → Creation × World D → Type 0
  IsCalmAfter pool i r = IsCalm D r.1.store (with_call pool i r.0)

  goes_on-IsCalm :
      (w : World D) (pool : Pool) (i : String) (call : Creation)
      → pool i ≡ some call
      → IsCalm D w.store pool
      → IsCalmAfter pool i (advance D w call)
  goes_on-IsCalm w pool i (answered r) here c =
      subst (IsCalmAfter pool i) (sym (answers_again w r)) (answered-IsCalm w.store pool i r c)
  goes_on-IsCalm w pool i (held a none) here c =
      let (r, e) = finds_none w a in
      subst (IsCalmAfter pool i) (sym e) (answered-IsCalm w.store pool i r c)
  goes_on-IsCalm w pool i (held a (some pod)) here c =
      elim (Bool-cases (int_eq pod.state sandbox_ready)) [
        | inr b ↦
            let (r, e) = finds_unready w a pod b in
            subst (IsCalmAfter pool i) (sym e) (answered-IsCalm w.store pool i r c)
        | inl b ↦
            let (own, _, _, _) = subst (IsPrepared D w.store i) here (c.calls i) in
            let mine : pool (cid_of a) ≡ some (held a (some pod)) = ap pool own ∙ here in
            subst (λ k. IsCalmAfter pool k (advance D w (held a (some pod)))) own
              (subst (IsCalmAfter pool (cid_of a)) (sym (finish D w a pod b))
                (created-IsCalm w pool a pod _ mine c))
      ]
  goes_on-IsCalm w pool i (made a) here c =
      let same = sym (link_mounts-Links D a.surroundings.link_calls w a.config.mounts).same_store in
      let w1 = linked_world D w a in
      let c1 = subst (λ s. IsCalm D s pool) same c in
      elim (Bool-cases (link_mounts D a.surroundings.link_calls w a.config.mounts).0) [
        | inr b ↦
            let (r, e) = fails_to_link w a b in
            subst (IsCalmAfter pool i) (sym e) (answered-IsCalm w1.store pool i r c1)
        | inl b ↦
            let (own, _, _) = subst (IsPrepared D w.store i) here (c.calls i) in
            let mine : pool (cid_of a) ≡ some (made a) = ap pool own ∙ here in
            subst (λ k. IsCalmAfter pool k (advance D w (made a))) own
              (subst (IsCalmAfter pool (cid_of a)) (sym (looks_up w a b))
                (held-IsCalm w1.store pool a (get_sandbox D w1.store (pod_of a)) refl mine c1))
      ]

  Move-IsCalm :
      {w v : World D} {pool rest : Pool}
      → Move D w pool v rest
      → IsCalm D w.store pool
      → IsCalm D v.store rest
  Move-IsCalm {w} {v} {pool} (arrives a proper new u out) c =
      with_call-IsCalm D w.store w.store pool (cid_of a) (made a) c.consistent c (refl, proper, u)
        (λ j e. c.calls j) (λ p. out) (λ p. refl) (λ j e p. refl)
  Move-IsCalm {w} {v} {pool} (goes_on i call here) c = goes_on-IsCalm w pool i call here c
  Move-IsCalm {w} {v} {pool} (another step other) c =
      IsCalm-Shrinks D w.store v.store (Step-Shrinks D L R step other c.consistent) pool
        (Step-IsConsistent D L R step c.consistent) c

  Moves-IsCalm :
      {w : World D} {pool : Pool} {v : World D} {rest : Pool}
      → Moves D w pool v rest
      → IsCalm D w.store pool
      → IsCalm D v.store rest
  Moves-IsCalm at_once c = c
  Moves-IsCalm (after ms m) c = Move-IsCalm m (Moves-IsCalm ms c)

  -- However the look-ups and the writes of any number of calls of CreateContainer, the other calls,
  -- and the exits of processes follow one another, a consistent store stays consistent, if no call
  -- of CreateContainer was under way at first: every record under an id without a slash is sound, a
  -- sandbox lists no container twice, and a stored container is listed by no sandbox but its own.
  -- The requests hold values of their Go types and names without slashes, a new id is in no list
  -- that is stored or held by a call, and not that of another call, the exit codes are of their Go
  -- type, the processes that start have ids other than 0, and the disk is lawful and reliable.
  pub Moves-IsConsistent :
      {w v : World D} {rest : Pool}
      → Moves D w (λ i. none) v rest
      → IsConsistent D w.store
      → IsConsistent D v.store
  Moves-IsConsistent ms h =
      (Moves-IsCalm ms
        (record { consistent = h; calls = λ i. tt; apart = λ i j p. absurd p })).consistent
