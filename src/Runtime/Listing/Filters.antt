-- ===== src/Runtime/Listing/Filters.antt =====
-- What the filters let through, and what ListContainers and ListPodSandbox answer.
use luna_for_mac.Base.{
  String, Bool, true, ◌≡◌, refl, sym, ap, ◌∙◌, ◌&&◌, ◌||◌, Option, none, some, List, [], ◌∷◌, map,
  ◌==◌, keep, keep-keep, keep-all, All, has_prefix, Bool-cases, Option-cases, inl, inr,
}
use luna_for_mac.Base.Int.{ℤ, int_eq}
use luna_for_mac.Json.{DistinctKeys}
use luna_for_mac.Disk.{Diskv}
use luna_for_mac.Runtime.Container.{Container}
use luna_for_mac.Runtime.Sandbox.{Sandbox}
use luna_for_mac.Runtime.Records.{
  get_container, list_containers, get_sandbox, list_sandboxes, entries, without_prefix,
  container_prefix, sandbox_prefix,
}
use luna_for_mac.Runtime.Records.Laws.{get_container-Fits, get_sandbox-Fits}
use luna_for_mac.Runtime.Listing.{
  Filter, filter_by_state, filter_by_text, filter_containers, filter_pods,
  container_to_cri_container, listed_pod, list_containers_handler, list_pod_sandbox,
}
use luna_for_mac.Runtime.Listing.Labels.{has_labels, filter_by_label_lem}

-- An empty text and a nil state select everything.
abbrev pub has_text : String → String → Bool
has_text id text = id == "" || text == id

abbrev pub has_state : Option ℤ → ℤ → Bool
has_state none state = true
has_state (some z) state = int_eq state z

-- Whether the filter is meant to select the container, or the sandbox.
abbrev pub selects : Filter → Container → Bool
selects f c =
    has_text f.pod_sandbox_id c.pod_id
    && (has_labels c.labels f.label_selector && (has_state f.state c.state && has_text f.id c.id))

abbrev pub selects_pod : Option Filter → Sandbox → Bool
selects_pod none p = true
selects_pod (some f) p =
    has_text f.id p.id && (has_labels p.labels f.label_selector && has_state f.state p.state)

module _ {ℓ} {A : Type ℓ} where
  filter_by_text_lem :
      (text : A → String) (id : String) (cs : List A)
      → filter_by_text text id cs ≡ keep (λ c. has_text id (text c)) cs
  unfolding filter_by_text
  filter_by_text_lem text id cs = elim (Bool-cases (id == "")) [
    | inl e ↦ rw e (sym (keep-all cs))
    | inr e ↦ rw e refl
  ]

  filter_by_state_lem :
      (state : A → ℤ) (o : Option ℤ) (cs : List A)
      → filter_by_state state o cs ≡ keep (λ c. has_state o (state c)) cs
  unfolding filter_by_state
  filter_by_state_lem state none cs = sym (keep-all cs)
  filter_by_state_lem state (some z) cs = refl

  All-keep {κ} : (P : A → Type κ) (p : A → Bool) (xs : List A) → All P xs → All P (keep p xs)
  All-keep P p [] h = tt
  All-keep P p (x ∷ xs) h = elim (Bool-cases (p x)) [
    | inl e ↦ rw e (h.0, All-keep P p xs h.1)
    | inr e ↦ rw e (All-keep P p xs h.1)
  ]

abbrev HasLabels : Container → Type 0
HasLabels c = DistinctKeys c.labels

filter_containers_lem :
    (f : Filter) (cs : List Container)
    → All HasLabels cs
    → filter_containers cs f ≡ keep (selects f) cs
unfolding filter_containers
filter_containers_lem f cs h =
    let in_pod = keep (λ c. has_text f.pod_sandbox_id c.pod_id) cs in
    let labelled = keep (λ c. has_labels c.labels f.label_selector) in_pod in
    let in_state = keep (λ c. has_state f.state c.state) labelled in
    rw
      (
        filter_by_text_lem (λ (c : Container). c.pod_id) f.pod_sandbox_id cs,
        filter_by_label_lem (λ (c : Container). c.labels) f.label_selector in_pod
            (All-keep HasLabels (λ c. has_text f.pod_sandbox_id c.pod_id) cs h),
        filter_by_state_lem (λ (c : Container). c.state) f.state labelled,
        filter_by_text_lem (λ (c : Container). c.id) f.id in_state,
      )
      (keep-keep _ _ labelled ∙ keep-keep _ _ in_pod ∙ keep-keep _ _ cs)

abbrev PodHasLabels : Sandbox → Type 0
PodHasLabels p = DistinctKeys p.labels

filter_pods_lem :
    (filter : Option Filter) (pods : List Sandbox)
    → All PodHasLabels pods
    → filter_pods pods filter ≡ keep (selects_pod filter) pods
unfolding filter_pods
filter_pods_lem none pods h = sym (keep-all pods)
filter_pods_lem (some f) pods h =
    let named = keep (λ p. has_text f.id p.id) pods in
    let labelled = keep (λ p. has_labels p.labels f.label_selector) named in
    rw
      (
        filter_by_text_lem (λ (p : Sandbox). p.id) f.id pods,
        filter_by_label_lem (λ (p : Sandbox). p.labels) f.label_selector named
            (All-keep PodHasLabels (λ p. has_text f.id p.id) pods h),
        filter_by_state_lem (λ (p : Sandbox). p.state) f.state labelled,
      )
      (keep-keep _ _ named ∙ keep-keep _ _ pods)

module _ (D : Diskv) where
  entries-All :
      {A : Type 0} (P : A → Type 0) (get : String → Option A) (prefix : String) (keys : List String)
      → ((k : String) (a : A) → get k ≡ some a → P a)
      → All P (entries D get prefix keys)
  unfolding entries
  entries-All P get prefix [] h = tt
  entries-All P get prefix (key ∷ keys) h = elim (Bool-cases (has_prefix key prefix)) [
    | inr e ↦ rw e (entries-All P get prefix keys h)
    | inl e ↦ elim (Option-cases (get (without_prefix prefix key))) [
      | inl f ↦ rw (e, f) (entries-All P get prefix keys h)
      | inr (a, f) ↦ rw (e, f) (h _ a f, entries-All P get prefix keys h)
    ]
  ]

  -- With a filter, ListContainers answers with the stored containers, in their order, that have the
  -- filter's id, state and sandbox and all labels of its selector, as far as the filter gives them.
  pub list_containers_handler_lem :
      (s : D.State) (f : Filter)
      → list_containers_handler D s (some f)
        ≡ some (map container_to_cri_container (keep (selects f) (list_containers D s)))
  unfolding list_containers_handler list_containers
  list_containers_handler_lem s f =
      ap (λ cs. some (map container_to_cri_container cs))
        (filter_containers_lem f (list_containers D s) (
          entries-All HasLabels (get_container D s) container_prefix (D.keys s)
            (λ k c e. (get_container-Fits D s k c e).labels)))

  -- ListPodSandbox answers with the stored sandboxes, in their order, that have the filter's id and
  -- state and all labels of its selector, as far as the filter gives them, and with all of them when
  -- the filter is nil.
  pub list_pod_sandbox_lem :
      (s : D.State) (filter : Option Filter)
      → list_pod_sandbox D s filter
        ≡ map listed_pod (keep (selects_pod filter) (list_sandboxes D s))
  unfolding list_pod_sandbox list_sandboxes
  list_pod_sandbox_lem s filter = ap (map listed_pod) (
      filter_pods_lem filter (list_sandboxes D s) (
        entries-All PodHasLabels (get_sandbox D s) sandbox_prefix (D.keys s)
          (λ k p e. (get_sandbox-Fits D s k p e).labels)))
