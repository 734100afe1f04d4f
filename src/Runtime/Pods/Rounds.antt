-- ===== src/Runtime/Pods/Rounds.antt =====
-- One round of terminating the containers of a sandbox, and what the rounds come to.
use luna_for_mac.Base.{
  String, Bool, ◌∷◌, ◌≡◌, ◌≢◌, refl, ◌∙◌, ◌⊎◌, inl, inr, Option, none, some, List, [], ◌++◌, ◌==◌,
  arith, Bool-cases, Lacks, eq_refl, All,
}
use luna_for_mac.Path.{slash}
use luna_for_mac.Disk.{Diskv, IsLawful, IsReliable}
use luna_for_mac.Runtime.Container.{Container}
use luna_for_mac.Runtime.Sandbox
use luna_for_mac.Runtime.Sandbox.{Sandbox}
use luna_for_mac.Runtime.Types.{World, Outcome, ok, err, waiting, sandbox_notready}
use luna_for_mac.Runtime.Records.{get_container, delete_container, get_sandbox, put_sandbox}
use luna_for_mac.Runtime.Records.Laws.{
  get_container-delete_container, get_container-put_sandbox, get_sandbox-put_sandbox,
  get_sandbox-delete_container,
}
use luna_for_mac.Runtime.Terminate.Stored.{IsStored, terminate_container-IsStored}
use luna_for_mac.Runtime.Terminate.{Kill, terminate_container}
use luna_for_mac.Runtime.Terminate.Outcomes.{
  PlainWakes, Keeps, Keeps-refl, Keeps-trans, terminate_container-Keeps,
}
use luna_for_mac.Runtime.Pods.{closed, close_container, timeout_of}

abbrev pub IsAbsent : (D : Diskv) → D.State → String → Type 0
IsAbsent D s id = get_container D s id ≡ none

-- The record of a sandbox whose containers are all closed.
abbrev pub emptied : Sandbox → Sandbox
emptied pod = record pod { containers = []; state = sandbox_notready }

pub list-Fits :
    (pod : Sandbox) (ids : List String)
    → Sandbox.Fits pod
    → Sandbox.Fits (record pod { containers = ids })
list-Fits pod ids f = record {
  attempt = f.attempt;
  created_at = f.created_at;
  state = f.state;
  labels = f.labels;
  annotations = f.annotations;
}

pub emptied-Fits : (pod : Sandbox) → Sandbox.Fits pod → Sandbox.Fits (emptied pod)
emptied-Fits pod f = record {
  attempt = f.attempt;
  created_at = f.created_at;
  state = refl;
  labels = f.labels;
  annotations = f.annotations;
}

module _ (D : Diskv) (L : IsLawful D) (R : IsReliable D) where
  delete_container-Keeps :
      (s : D.State) (id : String) → Lacks slash id → Keeps D s (delete_container D s id)
  delete_container-Keeps s id plain = record {
    sandboxes = λ k p. get_sandbox-delete_container D L R s id k plain p;
    absent = λ k p h.
        get_container-delete_container D L R s id k plain p
        ∙ (elim (Bool-cases (id == k)) [ inl e ↦ rw e refl | inr e ↦ rw e h ]);
  }

  -- After a round: the container is gone if the round was not cut short, and else still stored.
  pub record Round (s : D.State) (id : String) (r : Outcome (Unit {0})) (t : D.State) : Type 0 where
    pub keeps : Keeps D s t
    pub gone : r ≡ ok tt → IsAbsent D t id
    pub stored : r ≢ ok tt → IsStored D id t

  closed-Round :
      (s : D.State) (id : String) (r : Outcome (Unit {0}) × World D)
      → Lacks slash id
      → Keeps D s r.1.store
      → IsStored D id r.1.store
      → Round s id (closed D id r).0 (closed D id r).1.store
  unfolding closed
  closed-Round s id (ok tt, v) plain k st = record {
    keeps = Keeps-trans D k (delete_container-Keeps v.store id plain);
    gone =
        λ e. get_container-delete_container D L R v.store id id plain plain ∙ rw (eq_refl id) refl;
    stored = λ h. absurd (h refl);
  }
  closed-Round s id (err e, v) plain k st = record {
    keeps = k;
    gone = λ h. absurd (ground arith);
    stored = λ h. st;
  }
  closed-Round s id (waiting, v) plain k st = record {
    keeps = k;
    gone = λ h. absurd (ground arith);
    stored = λ h. st;
  }

  pub close_container-Round :
      (force : Bool) (w : World D) (id : String) (k : Kill) (o : Option Container)
      → Lacks slash id
      → PlainWakes k.wakes
      → get_container D w.store id ≡ o
      → Round w.store id
          (close_container D force w id k o).0
          (close_container D force w id k o).1.store
  unfolding close_container
  close_container-Round force w id k none plain wakes e = record {
    keeps = Keeps-refl D w.store;
    gone = λ h. e;
    stored = λ h. absurd (h refl);
  }
  close_container-Round force w id k (some c) plain wakes e =
      closed-Round w.store id (terminate_container D (timeout_of force) w c k) plain
        (terminate_container-Keeps D L R (timeout_of force) w c k wakes)
        (terminate_container-IsStored D L R id plain (timeout_of force) w c k wakes (c, e))

  -- The sandbox's record after the loop over `ids`: closed as a whole, or with the containers that
  -- are left, the first of which is the one that was not terminated and is still stored. All that
  -- came before it are gone.
  abbrev pub Closes : Sandbox → List String → Outcome (Unit {0}) × World D → Type 0
  Closes pod ids (r, v) =
      (r ≡ ok tt)
        × (get_sandbox D v.store pod.id ≡ some (emptied pod))
        × All (IsAbsent D v.store) ids
      ⊎ (r ≢ ok tt)
        × ((gone : List String) × (id : String) × (left : List String) × (ids ≡ gone ++ id ∷ left)
            × IsStored D id v.store
            × (get_sandbox D v.store pod.id ≡ some (record pod { containers = id ∷ left }))
            × All (IsAbsent D v.store) gone)

  pub put_sandbox-IsAbsent :
      (s : D.State) (pod_id k : String) (pod : Sandbox)
      → Lacks slash pod_id
      → Lacks slash k
      → IsAbsent D s k
      → IsAbsent D (put_sandbox D s pod_id pod) k
  put_sandbox-IsAbsent s pod_id k pod p q h = get_container-put_sandbox D L R s pod_id k p q pod ∙ h

  pub put_sandbox-found :
      (s : D.State) (pod_id : String) (pod : Sandbox)
      → Lacks slash pod_id
      → Sandbox.Fits pod
      → get_sandbox D (put_sandbox D s pod_id pod) pod_id ≡ some pod
  put_sandbox-found s pod_id pod p f =
      get_sandbox-put_sandbox D L R s pod_id pod_id p p pod f ∙ rw (eq_refl pod_id) refl
