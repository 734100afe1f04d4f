-- ===== src/Runtime/Create/Mounts.antt =====
-- The links that CreateContainer makes for the mounts of a container.
use luna_for_mac.Base.{
  ℕ, suc, String, Bool, true, false, not, ◌≡◌, refl, ◌∙◌, sym, ap, Option, none, some, List, [],
  ◌∷◌, ◌++◌, ◌==◌, if◌then◌else◌, arith, All, All-append, Bool-cases, Option-cases, inl, inr,
}
use mathlib.Core.List.{append-nil, append_assoc}
use luna_for_mac.Path.{is_path_allowed}
use luna_for_mac.Disk.{Diskv}
use luna_for_mac.Runtime.Types.{World, FileOp, removed, made_dir, linked, Outcome, err, Error}
use luna_for_mac.Runtime.Records.{get_sandbox, make_pod_id}
use luna_for_mac.Runtime.Sandbox.{Sandbox}
use luna_for_mac.Runtime.Create.Paths.{dir}
use luna_for_mac.Runtime.Create.Link.{
  Mount, LinkCalls, symlink_to_container_path, link_mounts, done,
}
use luna_for_mac.Runtime.Create.{
  Surroundings, Request, Config, Metadata, PodMetadata, create_in_pod, create_checked, create_parts,
  create_container,
}

-- Nothing is removed or linked at a path that containers may not mount over.
abbrev pub IsSafe : FileOp → Type 0
IsSafe (removed p) = is_path_allowed p ≡ true
IsSafe (made_dir p) = Unit
IsSafe (linked host p) = is_path_allowed p ≡ true

module _ (D : Diskv) where
  -- From `w` to `v` the store stays, and only safe things are done to files.
  pub record Links (w v : World D) : Type 0 where
    pub ops : List FileOp
    pub log : v.file_ops ≡ w.file_ops ++ ops
    pub safe : All IsSafe ops
    pub same_store : v.store ≡ w.store

  pub Links-refl : (w : World D) → Links w w
  Links-refl w = record {
    ops = [];
    log = sym (append-nil w.file_ops);
    safe = tt;
    same_store = refl;
  }

  Links-trans : {u v w : World D} → Links u v → Links v w → Links u w
  Links-trans {u} a b = record {
    ops = a.ops ++ b.ops;
    log = b.log ∙ ap (λ l. l ++ b.ops) a.log ∙ append_assoc u.file_ops a.ops b.ops;
    safe = All-append IsSafe a.ops b.ops a.safe b.safe;
    same_store = b.same_store ∙ a.same_store;
  }

  Links-done : (w : World D) (op : FileOp) → IsSafe op → Links w (done D w op)
  Links-done w op h = record { ops = op ∷ []; log = refl; safe = (h, tt); same_store = refl }

  -- The three calls for one mount, each made if the one before it succeeded.
  abbrev three_calls : LinkCalls → World D → World D → World D → World D → Bool × World D
  three_calls calls w w1 w2 w3 =
      if not calls.remove_ok
      then (false, w)
      else if not calls.mkdir_ok
      then (false, w1)
      else if calls.symlink_ok
      then (true, w3)
      else (false, w2)

  three_calls-Links :
      {u w w1 w2 w3 : World D} (calls : LinkCalls)
      → Links u w
      → Links u w1
      → Links u w2
      → Links u w3
      → Links u (three_calls calls w w1 w2 w3).1
  three_calls-Links calls l0 l1 l2 l3 = elim (Bool-cases calls.remove_ok) [
    | inr e ↦ rw e l0
    | inl e ↦ elim (Bool-cases calls.mkdir_ok) [
      | inr f ↦ rw (e, f) l1
      | inl f ↦ elim (Bool-cases calls.symlink_ok) [
        | inr g ↦ rw (e, f, g) l2
        | inl g ↦ rw (e, f, g) l3
      ]
    ]
  ]

  symlink-Links :
      (calls : LinkCalls) (w : World D) (host p : String)
      → Links w (symlink_to_container_path D calls w host p).1
  unfolding symlink_to_container_path
  symlink-Links calls w host p = elim (Bool-cases (is_path_allowed p)) [
    | inr e ↦ rw e (Links-refl w)
    | inl e ↦
        let w1 = done D w (removed p) in
        let w2 = done D w1 (made_dir (dir p)) in
        let first = Links-done w (removed p) e in
        let second = Links-trans first (Links-done w1 (made_dir (dir p)) tt) in
        let third = Links-trans second (Links-done w2 (linked host p) e) in
        rw e (three_calls-Links calls (Links-refl w) first second third)
  ]

  pub link_mounts-Links :
      (calls : ℕ → LinkCalls) (w : World D) (ms : List Mount) → Links w (link_mounts D calls w ms).1
  unfolding link_mounts
  link_mounts-Links calls w [] = Links-refl w
  link_mounts-Links calls w (m ∷ ms) = elim (Bool-cases (m.host_path == m.container_path)) [
    | inl e ↦ rw e (link_mounts-Links (λ n. calls (suc n)) w ms)
    | inr e ↦
        let r = symlink_to_container_path D (calls 0) w m.host_path m.container_path in
        let step = symlink-Links (calls 0) w m.host_path m.container_path in
        rw e (elim (Bool-cases r.0) [
          | inl f ↦
              rw (f, link_mounts) (Links-trans step (link_mounts-Links (λ n. calls (suc n)) r.1 ms))
          | inr f ↦ rw (f, link_mounts) step
        ])
  ]

  create_in_pod_ops :
      (o : Surroundings) (w : World D) (config : Config) (metadata : Metadata)
      (image pod_id : String) (pod : Option Sandbox)
      → (create_in_pod D o w config metadata image pod_id pod).1.file_ops ≡ w.file_ops
  unfolding create_in_pod
  create_in_pod_ops o w config metadata image pod_id none = refl
  create_in_pod_ops o w config metadata image pod_id (some pod) = ground arith

  -- What CreateContainer did to files, on every path through it.
  abbrev pub DidSafely : World D → World D → Type 0
  DidSafely w v = (ops : List FileOp) × (v.file_ops ≡ w.file_ops ++ ops) × All IsSafe ops

  DidSafely-refl : (w : World D) → DidSafely w w
  DidSafely-refl w = ([], sym (append-nil w.file_ops), tt)

  create_checked_safe :
      (o : Surroundings) (w : World D) (config : Config) (metadata : Metadata) (image : String)
      (sandbox : PodMetadata)
      → DidSafely w (create_checked D o w config metadata image sandbox).1
  unfolding create_checked
  create_checked_safe o w config metadata image sandbox =
      let r = link_mounts D o.link_calls w config.mounts in
      let l = link_mounts-Links o.link_calls w config.mounts in
      let pod_id = make_pod_id sandbox.namespace sandbox.name in
      elim (Bool-cases r.0) [
        | inl e ↦ rw e (
          l.ops,
          create_in_pod_ops o r.1 config metadata image pod_id (get_sandbox D r.1.store pod_id)
              ∙ l.log,
          l.safe,
        )
        | inr e ↦ rw e (l.ops, l.log, l.safe)
      ]

  -- A request is refused at once, or it is complete.
  module _ {ℓ} (P : Outcome String × World D → Type ℓ) (o : Surroundings) (w : World D) where
    create_parts_cases :
        (config : Config) (metadata : Option Metadata) (image : Option String)
        (sandbox : Option PodMetadata)
        → ((e : Error) → P (err e, w))
        → ((m : Metadata) (i : String) (s : PodMetadata)
            → metadata ≡ some m
            → sandbox ≡ some s
            → P (create_checked D o w config m i s))
        → P (create_parts D o w config metadata image sandbox)
    unfolding create_parts
    create_parts_cases config none image sandbox refused complete = refused _
    create_parts_cases config (some m) none sandbox refused complete = refused _
    create_parts_cases config (some m) (some i) none refused complete = refused _
    create_parts_cases config (some m) (some i) (some s) refused complete = complete m i s refl refl

    pub create_container_cases :
        (req : Request)
        → ((e : Error) → P (err e, w))
        → ((config : Config) (m : Metadata) (i : String) (s : PodMetadata)
            → req.config ≡ some config
            → config.metadata ≡ some m
            → req.sandbox_metadata ≡ some s
            → P (create_checked D o w config m i s))
        → P (create_container D o w req)
    unfolding create_container
    create_container_cases req refused complete = elim (Option-cases req.config) [
      | inl e ↦ rw (e, create_container) (refused _)
      | inr (config, e) ↦
          rw (e, create_container)
            (create_parts_cases config config.metadata config.image req.sandbox_metadata refused
              (λ m i s. complete config m i s e))
    ]

  -- Whatever CreateContainer is asked and answers, what it did to files is a list of removals, new
  -- directories and links in which every removal and every link is at a path that isPathAllowed
  -- allows.
  pub create_container_safe :
      (o : Surroundings) (w : World D) (req : Request) → DidSafely w (create_container D o w req).1
  create_container_safe o w req =
      create_container_cases (λ r. DidSafely w r.1) o w req (λ e. DidSafely-refl w)
        (λ config m i s _ _ _. create_checked_safe o w config m i s)
