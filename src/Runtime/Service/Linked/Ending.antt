-- ===== src/Runtime/Service/Linked/Ending.antt =====
-- Exits of processes, StopContainer and RemoveContainer keep stored containers in the lists of
-- their sandboxes, but for a container whose removal was cut short.
use luna_for_mac.Base.{
  String, true, false, ◌≡◌, refl, sym, ap, subst, ◌∙◌, Option, none, some, List, [], ◌∷◌, ◌==◌,
  arith, Lacks, contains, Bool-cases, Option-cases, inl, inr, eq_iff,
}
use mathlib.Core.Option.{some-injective}
use luna_for_mac.Base.Int.{int_eq, ℤ, pos}
use luna_for_mac.Path.{slash}
use luna_for_mac.Disk.{Diskv, IsLawful, IsReliable}
use luna_for_mac.Runtime.Container.{Container}
use luna_for_mac.Runtime.Sandbox.{Sandbox}
use luna_for_mac.Runtime.Records.{get_container, get_sandbox}
use luna_for_mac.Runtime.Records.Laws.{get_container-Fits, get_sandbox-Fits}
use luna_for_mac.Runtime.Types.{World, Outcome, ok, err, waiting}
use luna_for_mac.Runtime.Terminate.{Exit, Kill, track_exit, terminate_container}
use luna_for_mac.Runtime.Terminate.Outcomes.{
  IsPlainExit, PlainWakes, exited, exited-Fits, terminate_container_keeps,
}
use luna_for_mac.Runtime.Stop.{remove_first, detach, stop_container, remove_container}
use luna_for_mac.Runtime.Stop
use luna_for_mac.Runtime.Pods.Rounds.{list-Fits}
use luna_for_mac.Runtime.Service.{IsConsistent}
use luna_for_mac.Runtime.Service.Ending.{track_exit-IsConsistent, detach-IsConsistent}
use luna_for_mac.Runtime.Service.Linked.{
  IsLinked, IsLinked-spare, put_container-IsLinked, delete_container-IsLinked, put_sandbox-IsLinked,
}

-- The container that a call of RemoveContainer cut short: it failed or still waits.
unfoldable pub cut_short : {A : Type 0} → Outcome A → String → List String → List String
cut_short (ok a) cid spared = spared
cut_short (err e) cid spared = cid ∷ spared
cut_short waiting cid spared = cid ∷ spared

-- The other ids stay in the list.
remove_first-kept :
    (cid a : String) (ids : List String)
    → (cid == a) ≡ false
    → contains ids a ≡ true
    → contains (remove_first cid ids) a ≡ true
unfolding remove_first
remove_first-kept cid a [] other h = h
remove_first-kept cid a (id ∷ ids) other h = elim (Bool-cases (id == cid)) [
  | inl e ↦
      let same : id ≡ cid = (eq_iff id cid).0 e in
      let far : (id == a) ≡ false = ap (λ x. x == a) same ∙ other in rw e (ground arith)
  | inr e ↦ rw e (elim (Bool-cases (id == a)) [
    | inl f ↦ rw f refl
    | inr f ↦ rw f (remove_first-kept cid a ids other (ground arith))
  ])
]

module _ (D : Diskv) (L : IsLawful D) (R : IsReliable D) where
  -- What is known of a store, for the calls that let processes exit meanwhile.
  abbrev pub IsKept : List String → D.State → Type 0
  IsKept spared s = IsConsistent D s × IsLinked D spared s

  track_exit-IsLinked :
      (spared : List String) (s : D.State) (e : Exit)
      → IsPlainExit e
      → IsConsistent D s
      → IsLinked D spared s
      → IsLinked D spared (track_exit D s e)
  unfolding track_exit
  track_exit-IsLinked spared s e h v l = elim (Option-cases (get_container D s e.container_id)) [
    | inl f ↦ rw (f, track_exit) l
    | inr (c, f) ↦ elim (Bool-cases (int_eq c.pid e.pid)) [
      | inr g ↦ rw (f, track_exit, g) l
      | inl g ↦
          rw (f, track_exit, g)
            (put_container-IsLinked D L R s v e.container_id h.plain spared (exited e c)
              (exited-Fits e c h.typed (get_container-Fits D s e.container_id c f))
              (v.containers e.container_id h.plain c f).plain_pod
              (λ out. l.home e.container_id c h.plain out f) l)
    ]
  ]

  pub track_exit-IsKept :
      (spared : List String) (s : D.State) (e : Exit)
      → IsPlainExit e
      → IsKept spared s
      → IsKept spared (track_exit D s e)
  track_exit-IsKept spared s e h (v, l) =
      (track_exit-IsConsistent D L R s e h v, track_exit-IsLinked spared s e h v l)

  pub terminate_container-IsKept :
      (spared : List String) (timeout : ℤ) (w : World D) (c : Container) (k : Kill)
      → PlainWakes k.wakes
      → IsKept spared w.store
      → IsKept spared (terminate_container D timeout w c k).1.store
  terminate_container-IsKept spared =
      terminate_container_keeps D (IsKept spared) (track_exit-IsKept spared)

  pub stop_container-IsKept :
      (spared : List String) (timeout : ℤ) (w : World D) (cid : String) (k : Kill)
      → PlainWakes k.wakes
      → IsKept spared w.store
      → IsKept spared (stop_container D timeout w cid k).1.store
  unfolding stop_container
  stop_container-IsKept spared timeout w cid k h v =
      elim (Option-cases (get_container D w.store cid)) [
        | inl f ↦ rw (f, stop_container) v
        | inr (c, f) ↦ rw (f, stop_container) (terminate_container-IsKept spared timeout w c k h v)
      ]

  detach-IsLinked :
      (spared : List String) (s : D.State) (pod_id cid : String) (o : Option Sandbox)
      → Lacks slash pod_id
      → get_sandbox D s pod_id ≡ o
      → IsConsistent D s
      → IsLinked D spared s
      → IsLinked D (cid ∷ spared) (detach D s pod_id cid o)
  unfolding detach
  detach-IsLinked spared s pod_id cid none plain e v l = IsLinked-spare D spared cid s l
  detach-IsLinked spared s pod_id cid (some p) plain e v l =
      let l' = IsLinked-spare D spared cid s l in
      elim (Bool-cases (contains p.containers cid)) [
        | inr f ↦ rw f l'
        | inl f ↦ rw f (
            put_sandbox-IsLinked D L R s v pod_id plain (cid ∷ spared)
              (record p { containers = remove_first cid p.containers })
              (list-Fits p _ (get_sandbox-Fits D s pod_id p e))
              (λ j a q out found own.
                let (pod, stored, lists) = l'.home j a q out found in
                let one : some pod ≡ some p = sym stored ∙ ap (get_sandbox D s) own ∙ e in
                remove_first-kept cid j p.containers (ground arith) (
                  subst (λ (d : Sandbox). contains d.containers j ≡ true) (some-injective _ _ one)
                    lists))
              (λ j a q out found other. l'.home j a q out found))
      ]

  removed_after-IsKept :
      (spared : List String) (cid : String) (r : Outcome (Unit {0}) × World D)
      → Lacks slash cid
      → IsKept (cid ∷ spared) r.1.store
      → IsLinked D
          (cut_short (Stop.removed_after D cid r).0 cid spared)
          (Stop.removed_after D cid r).1.store
  unfolding Stop.removed_after cut_short
  removed_after-IsKept spared cid (ok u, w) plain (v, l) =
      delete_container-IsLinked D L R w.store v cid plain spared l
  removed_after-IsKept spared cid (err e, w) plain (v, l) = l
  removed_after-IsKept spared cid (waiting, w) plain (v, l) = l

  remove_found-IsLinked :
      (spared : List String) (w : World D) (cid : String) (k : Kill) (o : Option Container)
      → Lacks slash cid
      → PlainWakes k.wakes
      → get_container D w.store cid ≡ o
      → IsConsistent D w.store
      → IsLinked D spared w.store
      → IsLinked D
          (cut_short (Stop.remove_found D w cid k o).0 cid spared)
          (Stop.remove_found D w cid k o).1.store
  unfolding Stop.remove_found cut_short
  remove_found-IsLinked spared w cid k none plain h e v l = l
  remove_found-IsLinked spared w cid k (some c) plain h e v l =
      let pod = get_sandbox D w.store c.pod_id in
      let r = (v.containers cid plain c e).plain_pod in
      let w' : World D = record w { store = detach D w.store c.pod_id cid pod } in
      removed_after-IsKept spared cid (terminate_container D (pos 0) w' c k) plain (
        terminate_container-IsKept (cid ∷ spared) (pos 0) w' c k h (
          detach-IsConsistent D L R w.store c.pod_id cid pod r refl v,
          detach-IsLinked spared w.store c.pod_id cid pod r refl v l,
        ))

  -- RemoveContainer in a consistent store where every container is in the list of its stored
  -- sandbox, those with spared ids aside. Where it answers without an error, the same is true of
  -- the store after it; where it fails or still waits, it is true with the container's id spared
  -- as well. The disk is lawful and reliable, the id holds no slash, and the exit codes are of
  -- their Go type.
  pub remove_container-IsLinked :
      (spared : List String) (w : World D) (cid : String) (k : Kill)
      → Lacks slash cid
      → PlainWakes k.wakes
      → IsConsistent D w.store
      → IsLinked D spared w.store
      → IsLinked D
          (cut_short (remove_container D w cid k).0 cid spared)
          (remove_container D w cid k).1.store
  unfolding remove_container
  remove_container-IsLinked spared w cid k plain h =
      remove_found-IsLinked spared w cid k (get_container D w.store cid) plain h refl
