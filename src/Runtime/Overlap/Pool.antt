-- ===== src/Runtime/Overlap/Pool.antt =====
-- Any number of calls of CreateContainer in two parts, between which each other, the other calls and
-- the exits of processes may come: the steps, and what is to hold of the calls.
pub mod Kept
pub mod Reached
use luna_for_mac.Base.{
  String, Bool, true, false, ◌≡◌, Option, none, some, List, [], ◌==◌, if◌then◌else◌, Lacks,
  contains,
}
use luna_for_mac.Path.{slash}
use luna_for_mac.Disk.{Diskv}
use luna_for_mac.Runtime.Container.{Container}
use luna_for_mac.Runtime.Sandbox
use luna_for_mac.Runtime.Sandbox.{Sandbox}
use luna_for_mac.Runtime.Records.{get_container, get_sandbox}
use luna_for_mac.Runtime.Types.{World}
use luna_for_mac.Runtime.Create.Created.{IsTyped}
use luna_for_mac.Runtime.Overlap.{Complete, pod_of, Creation, made, held, answered, advance}
use luna_for_mac.Runtime.Overlap.Calls.{cid_of}
use luna_for_mac.Runtime.Service.{IsSoundPod, IsConsistent, Step}
use luna_for_mac.Runtime.Service.Shrinks.Steps.{IsOther}

-- The calls by their new ids.
abbrev pub Pool : Type 0
Pool = String → Option Creation

abbrev pub with_call : Pool → String → Creation → Pool
with_call pool i call j = if i == j then some call else pool j

-- The list that a call is going to write, but for its own id.
abbrev pub held_list : Option Creation → List String
held_list (some (held a (some pod))) = pod.containers
held_list _ = []

-- The call has yet to write.
abbrev pub IsPending : Option Creation → Type 0
IsPending (some (made a)) = Unit
IsPending (some (held a pod)) = Unit
IsPending _ = ⊥

-- Values of their Go types, and names without a slash.
pub record IsProper (a : Complete) : Type 0 where
  pub typed : IsTyped a.surroundings a.config a.metadata
  pub plain : Lacks slash (cid_of a)
  pub plain_pod : Lacks slash (pod_of a)

module _ (D : Diskv) where
  pub record IsUnlisted (s : D.State) (id : String) : Type 0 where
    pub unlisted :
        (k : String) (p : Sandbox)
        → Lacks slash k
        → get_sandbox D s k ≡ some p
        → contains p.containers id ≡ false

  -- What a call does not know any more when it writes, and what still holds then of the record that
  -- it read: it was sound, and its list names no container of another sandbox.
  pub record IsHeld (s : D.State) (k : String) (pod : Sandbox) : Type 0 where
    pub sound : IsSoundPod k pod
    pub fits : Sandbox.Fits pod
    pub own :
        (j : String) (c : Container)
        → Lacks slash j
        → get_container D s j ≡ some c
        → contains pod.containers j ≡ true
        → c.pod_id ≡ k

  abbrev pub IsPrepared : D.State → String → Option Creation → Type 0
  IsPrepared s i (some (made a)) = (cid_of a ≡ i) × IsProper a × IsUnlisted s i
  IsPrepared s i (some (held a none)) = (cid_of a ≡ i) × IsProper a × IsUnlisted s i
  IsPrepared s i (some (held a (some pod))) =
      (cid_of a ≡ i) × IsProper a × IsUnlisted s i × IsHeld s (pod_of a) pod
  IsPrepared s i _ = Unit

  -- The store is consistent, and every call is prepared for what it has yet to do.
  pub record IsCalm (s : D.State) (pool : Pool) : Type 0 where
    pub consistent : IsConsistent D s
    pub calls : (i : String) → IsPrepared s i (pool i)
    pub apart : (i j : String) → IsPending (pool i) → contains (held_list (pool j)) i ≡ false

  -- A new call arrives, with an id that is new; a call goes on; or another call is handled as a
  -- whole, or a process exits.
  pub data Move (w : World D) (pool : Pool) : World D → Pool → Type 0 where
    arrives :
        (a : Complete)
        → IsProper a
        → pool (cid_of a) ≡ none
        → IsUnlisted w.store (cid_of a)
        → ((j : String) → contains (held_list (pool j)) (cid_of a) ≡ false)
        → Move w pool w (with_call pool (cid_of a) (made a))
    goes_on :
        (i : String) (call : Creation)
        → pool i ≡ some call
        → Move w pool (advance D w call).1 (with_call pool i (advance D w call).0)
    another : {v : World D} (step : Step D w v) → IsOther D step → Move w pool v pool

  pub data Moves (w : World D) (pool : Pool) : World D → Pool → Type 0 where
    at_once : Moves w pool w pool
    after : {u v : World D} {p q : Pool} → Moves w pool u p → Move u p v q → Moves w pool v q
