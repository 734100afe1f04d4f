-- ===== src/Runtime/Listing/Stored.antt =====
-- What the lists of containers and sandboxes find: the records of the store.
use luna_for_mac.Base.{
  String, Bool, true, false, ◌≡◌, ◌↔◌, refl, sym, ap, ◌∙◌, Option, none, some, List, [], ◌∷◌, map,
  ◌==◌, ◌<>◌, if◌then◌else◌, arith, In, In-keep, In-map, keep, All, Lacks, contains, has_prefix,
  Bool-cases, Option-cases, inl, inr, eq_iff,
}
use luna_for_mac.Path.{slash}
use luna_for_mac.Disk.{Diskv, IsListing, base_name, base_name-in}
use luna_for_mac.Runtime.Container.{Container, to_container}
use luna_for_mac.Runtime.Sandbox.{Sandbox, to_sandbox}
use luna_for_mac.Json.Laws.{>>=-eq-some}
use luna_for_mac.Runtime.Records.{
  make_container_key, make_sandbox_key, get_container, list_containers, get_sandbox, list_sandboxes,
  entries, without_prefix, container_prefix, sandbox_prefix,
}
use luna_for_mac.Runtime.Records.Keys.{make_container_key-plain, make_sandbox_key-plain}
use luna_for_mac.Runtime.Listing.{Filter, container_to_cri_container, list_containers_handler}
use luna_for_mac.Runtime.Listing.Filters.{selects, list_containers_handler_lem}

without_prefix-plain : (prefix s : String) → Lacks slash s → Lacks slash (without_prefix prefix s)
without_prefix-plain String.[] s h = h
without_prefix-plain (String.◌∷◌ c p) String.[] h = tt
without_prefix-plain (String.◌∷◌ c p) (String.◌∷◌ d s) h = without_prefix-plain p s h.1

module _ (D : Diskv) {A : Type 0} (get : String → Option A) (prefix : String) where
  entries-In :
      (k : String) (a : A) (keys : List String)
      → has_prefix (prefix <> k) prefix ≡ true
      → without_prefix prefix (prefix <> k) ≡ k
      → get k ≡ some a
      → contains keys (prefix <> k) ≡ true
      → In a (entries D get prefix keys)
  unfolding entries
  entries-In k a [] starts rest e h = cc
  entries-In k a (key ∷ keys) starts rest e h = elim (Bool-cases (key == (prefix <> k))) [
    | inl same ↦ rw ((eq_iff key (prefix <> k)).0 same, starts, rest, e) (inl refl)
    | inr other ↦
        let later = entries-In k a keys starts rest e (ground arith) in
        elim (Bool-cases (has_prefix key prefix)) [
          | inr f ↦ rw f later
          | inl f ↦ elim (Option-cases (get (without_prefix prefix key))) [
            | inl g ↦ rw (f, g) later
            | inr (b, g) ↦ rw (f, g) (inr later)
          ]
        ]
  ]

  found_first :
      (a : A) (key : String) (keys : List String) (b : Bool) (o : Option A)
      → get (without_prefix prefix key) ≡ o
      → Lacks slash key
      → (In a (entries D get prefix keys) → (k : String) × Lacks slash k × (get k ≡ some a))
      → In a (
          if b
          then elim o [ none ↦ entries D get prefix keys | some c ↦ c ∷ entries D get prefix keys ]
          else entries D get prefix keys)
      → (k : String) × Lacks slash k × (get k ≡ some a)
  found_first a key keys false o e p later h = later h
  found_first a key keys true none e p later h = later h
  found_first a key keys true (some c) e p later (inl same) =
      (without_prefix prefix key, without_prefix-plain prefix key p, e ∙ ap some (sym same))
  found_first a key keys true (some c) e p later (inr h) = later h

  entries-found :
      (a : A) (keys : List String)
      → All (Lacks slash) keys
      → In a (entries D get prefix keys)
      → (k : String) × Lacks slash k × (get k ≡ some a)
  unfolding entries
  entries-found a [] p h = elim h [ ]
  entries-found a (key ∷ keys) p h =
      found_first a key keys (has_prefix key prefix) (get (without_prefix prefix key)) refl p.0
        (entries-found a keys p.1) h

module _ (D : Diskv) (N : IsListing D) where
  -- The container of each id without a slash is in the list.
  pub list_containers-In :
      (s : D.State) (k : String) (c : Container)
      → Lacks slash k
      → get_container D s k ≡ some c
      → In c (list_containers D s)
  unfolding list_containers get_container
  list_containers-In s k c p h =
      let (j, read, _) = >>=-eq-some (D.read s (make_container_key k)) to_container h in
      let name : base_name (make_container_key k) ≡ container_prefix <> k =
        ap base_name (make_container_key-plain k p)
        ∙ base_name-in "container" ("cnt_" <> k)
            (refl, (refl, (refl, (refl, (refl, (refl, (refl, (refl, (refl, tt)))))))))
            (refl, (refl, (refl, (refl, p)))) in
      entries-In D (get_container D s) container_prefix k c (D.keys s) refl refl h
        (ap (contains (D.keys s)) (sym name) ∙ N.lists s (make_container_key k) j read)

  -- And each container of the list is that of some id without a slash.
  pub list_containers-found :
      (s : D.State) (c : Container)
      → In c (list_containers D s)
      → (k : String) × Lacks slash k × (get_container D s k ≡ some c)
  unfolding list_containers
  list_containers-found s c h =
      entries-found D (get_container D s) container_prefix c (D.keys s) (N.plain s) h

  -- The list of containers holds exactly the containers that can be got under some id without a
  -- slash. Keys gives the names of the stored files, as documented.
  pub list_containers_iff :
      (s : D.State) (c : Container)
      → In c (list_containers D s) ↔ ((k : String) × Lacks slash k × (get_container D s k ≡ some c))
  list_containers_iff s c =
      (list_containers-found s c, λ (k, p, found). list_containers-In s k c p found)

  pub list_sandboxes-In :
      (s : D.State) (k : String) (c : Sandbox)
      → Lacks slash k
      → get_sandbox D s k ≡ some c
      → In c (list_sandboxes D s)
  unfolding list_sandboxes get_sandbox
  list_sandboxes-In s k c p h =
      let (j, read, _) = >>=-eq-some (D.read s (make_sandbox_key k)) to_sandbox h in
      let name : base_name (make_sandbox_key k) ≡ sandbox_prefix <> k =
        ap base_name (make_sandbox_key-plain k p)
        ∙ base_name-in "sandbox" ("sb_" <> k)
            (refl, (refl, (refl, (refl, (refl, (refl, (refl, tt))))))) (refl, (refl, (refl, p))) in
      entries-In D (get_sandbox D s) sandbox_prefix k c (D.keys s) refl refl h
        (ap (contains (D.keys s)) (sym name) ∙ N.lists s (make_sandbox_key k) j read)

  pub list_sandboxes-found :
      (s : D.State) (c : Sandbox)
      → In c (list_sandboxes D s)
      → (k : String) × Lacks slash k × (get_sandbox D s k ≡ some c)
  unfolding list_sandboxes
  list_sandboxes-found s c h =
      entries-found D (get_sandbox D s) sandbox_prefix c (D.keys s) (N.plain s) h

  -- ListContainers lists a stored container that the filter selects.
  pub list_containers_handler-In :
      (s : D.State) (f : Filter) (k : String) (c : Container)
      → Lacks slash k
      → get_container D s k ≡ some c
      → selects f c ≡ true
      → (cs : List _) × (list_containers_handler D s (some f) ≡ some cs)
        × In (container_to_cri_container c) cs
  list_containers_handler-In s f k c p h e = (
    map container_to_cri_container (keep (selects f) (list_containers D s)),
    list_containers_handler_lem D s f,
    In-map container_to_cri_container c (keep (selects f) (list_containers D s))
        (In-keep (selects f) c (list_containers D s) (list_containers-In s k c p h) e),
  )
