-- ===== src/Runtime/Service/Ending.antt =====
-- The exits of processes and the calls that stop or remove keep the store consistent.
use luna_for_mac.Base.{
  String, true, false, ◌≡◌, refl, Option, none, some, List, [], ◌∷◌, ◌==◌, arith, Lacks, All,
  Distinct, contains, Bool-cases, Option-cases, inl, inr,
}
use luna_for_mac.Base.Int.{int_eq, ℤ, pos}
use luna_for_mac.Path.{slash}
use luna_for_mac.Disk.{Diskv, IsLawful, IsReliable}
use luna_for_mac.Runtime.Container.{Container}
use luna_for_mac.Runtime.Sandbox.{Sandbox}
use luna_for_mac.Runtime.Records.{get_container, get_sandbox}
use luna_for_mac.Runtime.Records.Laws.{get_container-Fits, get_sandbox-Fits}
use luna_for_mac.Runtime.Types.{World, Outcome, ok, err, waiting}
use luna_for_mac.Runtime.Terminate.{Exit, Kill, track_exit, terminate_container}
use luna_for_mac.Runtime.Terminate.Outcomes.{
  IsPlainExit, PlainWakes, exited, exited-Fits, terminate_container_keeps,
}
use luna_for_mac.Runtime.Stop.{remove_first, detach, stop_container, remove_container}
use luna_for_mac.Runtime.Stop
use luna_for_mac.Runtime.Pods.Rounds.{list-Fits, emptied}
use luna_for_mac.Runtime.Service.{IsSound, IsSoundPod, IsConsistent}
use luna_for_mac.Runtime.Service.Store.{
  put_container-IsConsistent, put_sandbox-IsConsistent, delete_container-IsConsistent,
}

exited-IsSound : (e : Exit) (id : String) (c : Container) → IsSound id c → IsSound id (exited e c)
exited-IsSound e id c h = record {
  own_id = h.own_id;
  plain_pod = h.plain_pod;
  has_process = λ r. cc;
  finish_unset = h.finish_unset;
  known_state = inr (inr refl);
}

pub listing-IsSoundPod :
    (id : String) (p : Sandbox) (ids : List String)
    → IsSoundPod id p
    → All (Lacks slash) ids
    → Distinct ids
    → IsSoundPod id (record p { containers = ids })
listing-IsSoundPod id p ids h plain distinct = record {
  own_id = h.own_id;
  plain = plain;
  distinct = distinct;
  known_state = h.known_state;
}

pub emptied-IsSoundPod : (id : String) (p : Sandbox) → IsSoundPod id p → IsSoundPod id (emptied p)
emptied-IsSoundPod id p h = record {
  own_id = h.own_id;
  plain = tt;
  distinct = tt;
  known_state = inr refl;
}

remove_first-plain :
    (cid : String) (ids : List String)
    → All (Lacks slash) ids
    → All (Lacks slash) (remove_first cid ids)
unfolding remove_first
remove_first-plain cid [] h = tt
remove_first-plain cid (id ∷ ids) h = elim (Bool-cases (id == cid)) [
  | inl e ↦ rw e h.1
  | inr e ↦ rw e (h.0, remove_first-plain cid ids h.1)
]

contains-remove_first :
    (cid a : String) (ids : List String)
    → contains ids a ≡ false
    → contains (remove_first cid ids) a ≡ false
unfolding remove_first
contains-remove_first cid a [] h = refl
contains-remove_first cid a (id ∷ ids) h = ground (arith, contains-remove_first cid a ids)

pub remove_first-contains :
    (cid a : String) (ids : List String)
    → contains (remove_first cid ids) a ≡ true
    → contains ids a ≡ true
remove_first-contains cid a ids h = elim (Bool-cases (contains ids a)) [
  | inl e ↦ e
  | inr e ↦ cc (h, contains-remove_first cid a ids e)
]

remove_first-Distinct :
    (cid : String) (ids : List String) → Distinct ids → Distinct (remove_first cid ids)
unfolding remove_first
remove_first-Distinct cid [] h = tt
remove_first-Distinct cid (id ∷ ids) h = elim (Bool-cases (id == cid)) [
  | inl e ↦ rw e h.1
  | inr e ↦ rw e (contains-remove_first cid id ids h.0, remove_first-Distinct cid ids h.1)
]

module _ (D : Diskv) (L : IsLawful D) (R : IsReliable D) where
  pub track_exit-IsConsistent :
      (s : D.State) (e : Exit)
      → IsPlainExit e
      → IsConsistent D s
      → IsConsistent D (track_exit D s e)
  unfolding track_exit
  track_exit-IsConsistent s e h v = elim (Option-cases (get_container D s e.container_id)) [
    | inl f ↦ rw (f, track_exit) v
    | inr (c, f) ↦ elim (Bool-cases (int_eq c.pid e.pid)) [
      | inr g ↦ rw (f, track_exit, g) v
      | inl g ↦
          rw (f, track_exit, g)
            (put_container-IsConsistent D L R s v e.container_id h.plain (exited e c)
              (exited-Fits e c h.typed (get_container-Fits D s e.container_id c f))
              (exited-IsSound e e.container_id c (v.containers e.container_id h.plain c f))
              (λ k p q g l. v.belongs e.container_id k h.plain q c p f g l))
    ]
  ]

  pub terminate_container-IsConsistent :
      (timeout : ℤ) (w : World D) (c : Container) (k : Kill)
      → PlainWakes k.wakes
      → IsConsistent D w.store
      → IsConsistent D (terminate_container D timeout w c k).1.store
  terminate_container-IsConsistent =
      terminate_container_keeps D (IsConsistent D) track_exit-IsConsistent

  pub stop_container-IsConsistent :
      (timeout : ℤ) (w : World D) (cid : String) (k : Kill)
      → PlainWakes k.wakes
      → IsConsistent D w.store
      → IsConsistent D (stop_container D timeout w cid k).1.store
  unfolding stop_container
  stop_container-IsConsistent timeout w cid k h v =
      elim (Option-cases (get_container D w.store cid)) [
        | inl f ↦ rw (f, stop_container) v
        | inr (c, f) ↦ rw (f, stop_container) (terminate_container-IsConsistent timeout w c k h v)
      ]

  pub detach-IsConsistent :
      (s : D.State) (pod_id cid : String) (o : Option Sandbox)
      → Lacks slash pod_id
      → get_sandbox D s pod_id ≡ o
      → IsConsistent D s
      → IsConsistent D (detach D s pod_id cid o)
  unfolding detach
  detach-IsConsistent s pod_id cid none plain e v = v
  detach-IsConsistent s pod_id cid (some p) plain e v =
      elim (Bool-cases (contains p.containers cid)) [
        | inr f ↦ rw f v
        | inl f ↦
            let h = v.sandboxes pod_id plain p e in
            rw f (
              put_sandbox-IsConsistent D L R s v pod_id plain
                (record p { containers = remove_first cid p.containers })
                (list-Fits p _ (get_sandbox-Fits D s pod_id p e))
                (listing-IsSoundPod pod_id p _ h (remove_first-plain cid p.containers h.plain)
                  (remove_first-Distinct cid p.containers h.distinct))
                (λ j a q g l.
                  v.belongs j pod_id q plain a p g e (remove_first-contains cid j p.containers l)))
      ]

  removed_after-IsConsistent :
      (cid : String) (r : Outcome (Unit {0}) × World D)
      → Lacks slash cid
      → IsConsistent D r.1.store
      → IsConsistent D (Stop.removed_after D cid r).1.store
  unfolding Stop.removed_after
  removed_after-IsConsistent cid (ok u, w) plain v =
      delete_container-IsConsistent D L R w.store v cid plain
  removed_after-IsConsistent cid (err e, w) plain v = v
  removed_after-IsConsistent cid (waiting, w) plain v = v

  remove_found-IsConsistent :
      (w : World D) (cid : String) (k : Kill) (o : Option Container)
      → Lacks slash cid
      → PlainWakes k.wakes
      → get_container D w.store cid ≡ o
      → IsConsistent D w.store
      → IsConsistent D (Stop.remove_found D w cid k o).1.store
  unfolding Stop.remove_found
  remove_found-IsConsistent w cid k none plain h e v = v
  remove_found-IsConsistent w cid k (some c) plain h e v =
      let s = detach D w.store c.pod_id cid (get_sandbox D w.store c.pod_id) in
      let sound = v.containers cid plain c e in
      removed_after-IsConsistent cid (terminate_container D (pos 0) (record w { store = s }) c k)
        plain
        (terminate_container-IsConsistent (pos 0) (record w { store = s }) c k h
          (detach-IsConsistent w.store c.pod_id cid (get_sandbox D w.store c.pod_id) sound.plain_pod
            refl v))

  pub remove_container-IsConsistent :
      (w : World D) (cid : String) (k : Kill)
      → Lacks slash cid
      → PlainWakes k.wakes
      → IsConsistent D w.store
      → IsConsistent D (remove_container D w cid k).1.store
  unfolding remove_container
  remove_container-IsConsistent w cid k plain h v =
      remove_found-IsConsistent w cid k (get_container D w.store cid) plain h refl v
