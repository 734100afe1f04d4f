-- ===== src/Runtime/Stats/Listed.antt =====
-- What ListContainerStats answers.
use luna_for_mac.Base.{
  ℕ, zero, suc, ◌≡◌, refl, ap, ◌∙◌, String, none, some, List, [], ◌∷◌, map, In, In-of_keep, keep,
  inl, inr,
}
use luna_for_mac.Base.Int.{ℤ}
use luna_for_mac.Disk.{Diskv, IsListing}
use luna_for_mac.Runtime.Container.{Container}
use luna_for_mac.Runtime.Records.{get_container, list_containers}
use luna_for_mac.Runtime.Types.{ok}
use luna_for_mac.Runtime.Listing.{Filter, container_to_cri_container, list_containers_handler}
use luna_for_mac.Runtime.Listing.Filters.{selects, list_containers_handler_lem}
use luna_for_mac.Runtime.Listing.Stored.{list_containers-found}
use luna_for_mac.Runtime.Service.{IsConsistent}
use luna_for_mac.Runtime.Stats.{
  ContainerStats, StatsFilter, stats_of, container_stats, collect_stats, stats_answer,
  list_container_stats,
}

-- The statistics of the containers, one after the other.
abbrev pub stats_in_order : (ℕ → ℤ) → List Container → List ContainerStats
stats_in_order clock [] = []
stats_in_order clock (c ∷ cs) =
    stats_of c.id (clock zero) c ∷ stats_in_order (λ n. clock (suc n)) cs

-- The containers that the filter is meant to select, of whatever state.
abbrev pub stateless : StatsFilter → Filter
stateless f = record {
  id = f.id;
  state = none;
  pod_sandbox_id = f.pod_sandbox_id;
  label_selector = f.label_selector;
}

module _ (D : Diskv) where
  container_stats-stored :
      (s : D.State) (now : ℤ) (cid : String) (c : Container)
      → get_container D s cid ≡ some c
      → container_stats D s now cid ≡ ok (stats_of cid now c)
  unfolding container_stats
  container_stats-stored s now cid c h = rw (h, container_stats) refl

  collect_stats_lem :
      (s : D.State) (clock : ℕ → ℤ) (cs : List Container)
      → ((c : Container) → In c cs → get_container D s c.id ≡ some c)
      → collect_stats D s clock (map container_to_cri_container cs) ≡ stats_in_order clock cs
  unfolding collect_stats
  collect_stats_lem s clock [] h = refl
  collect_stats_lem s clock (c ∷ cs) h =
      rw
        (
          container_stats-stored s (clock zero) c.id c (h c (inl refl)),
          collect_stats_lem s (λ n. clock (suc n)) cs (λ d i. h d (inr i)),
        )
        refl

  -- In a consistent store, and with a filter, ListContainerStats answers with the statistics of
  -- exactly the stored containers that have the filter's id and sandbox and all labels of its
  -- selector, as far as the filter gives them, whatever their state, in their order, and skips none
  -- for an error. Keys gives the names of the stored files, as documented.
  pub list_container_stats_lem :
      IsListing D
      → (s : D.State) (clock : ℕ → ℤ) (f : StatsFilter) → IsConsistent D s
      → list_container_stats D s clock (some f)
        ≡ some (stats_in_order clock (keep (selects (stateless f)) (list_containers D s)))
  unfolding list_container_stats stats_answer
  list_container_stats_lem N s clock f v =
      let cs = keep (selects (stateless f)) (list_containers D s) in
      let stored : (c : Container) → In c cs → get_container D s c.id ≡ some c = λ c i.
        let (k, p, found) =
          list_containers-found D N s c (In-of_keep (selects (stateless f)) c _ i).0 in
        ap (get_container D s) (v.containers k p c found).own_id ∙ found in
      ap (stats_answer D s clock) (list_containers_handler_lem D s (stateless f))
      ∙ ap some (collect_stats_lem s clock cs stored)

  -- A nil filter, which stands for all containers, ends ListContainerStats with a panic.
  pub list_container_stats-nil :
      (s : D.State) (clock : ℕ → ℤ) → list_container_stats D s clock none ≡ none
  unfolding list_container_stats stats_answer list_containers_handler
  list_container_stats-nil s clock = refl
