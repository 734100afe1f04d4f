-- ===== src/Runtime/Stats.antt =====
-- ContainerStats and ListContainerStats of procri/pkg/runtimeservice/containerstats.go.
pub mod Listed
use luna_for_mac.Base.{ℕ, zero, suc, String, Option, none, some, List, [], ◌∷◌}
use luna_for_mac.Base.Int.{ℤ, pos}
use luna_for_mac.Json.{TextMap}
use luna_for_mac.Disk.{Diskv}
use luna_for_mac.Runtime.Container.{Container}
use luna_for_mac.Runtime.Records.{get_container}
use luna_for_mac.Runtime.Types.{Outcome, ok, err, waiting, container_not_found}
use luna_for_mac.Runtime.Create.{Metadata}
use luna_for_mac.Runtime.Listing.{Filter, CriContainer, list_containers_handler}

-- cri.ContainerAttributes
pub record ContainerAttributes : Type 0 where
  pub id : String
  pub metadata : Metadata
  pub labels : TextMap
  pub annotations : TextMap

-- cri.CpuUsage and cri.MemoryUsage: a time and an amount.
pub record Usage : Type 0 where
  pub timestamp : ℤ
  pub amount : ℕ

-- cri.FilesystemUsage
pub record FilesystemUsage : Type 0 where
  pub timestamp : ℤ
  pub mountpoint : String
  pub used_bytes : ℕ
  pub inodes_used : ℕ

-- cri.ContainerStats
pub record ContainerStats : Type 0 where
  pub attributes : ContainerAttributes
  pub cpu : Usage
  pub memory : Usage
  pub writable_layer : FilesystemUsage

-- cri.ContainerStatsFilter
pub record StatsFilter : Type 0 where
  pub id : String
  pub pod_sandbox_id : String
  pub label_selector : TextMap

abbrev pub stats_of : String → ℤ → Container → ContainerStats
stats_of cid now c = record {
  attributes = record {
    id = cid;
    metadata = record { name = c.name; attempt = c.attempt };
    labels = c.labels;
    annotations = c.annotations;
  };
  cpu = record { timestamp = now; amount = 0 };
  memory = record { timestamp = now; amount = 0 };
  writable_layer = record { timestamp = now; mountpoint = "/"; used_bytes = 0; inodes_used = 0 };
}

-- The filter that ListContainerStats makes for ListContainers: nil for nil.
abbrev pub container_filter : Option StatsFilter → Option Filter
container_filter none = none
container_filter (some f) = some (record {
  id = f.id;
  state = none;
  pod_sandbox_id = f.pod_sandbox_id;
  label_selector = f.label_selector;
})

-- `append` in the loop, after an error or an answer of ContainerStats.
abbrev add_answer : Outcome ContainerStats → List ContainerStats → List ContainerStats
add_answer (ok stats) rest = stats ∷ rest
add_answer (err e) rest = rest
add_answer waiting rest = rest

module _ (D : Diskv) where
  unfoldable pub container_stats : D.State → ℤ → String → Outcome ContainerStats
  container_stats s now cid = elim (get_container D s cid) [
    | none ↦ err (container_not_found cid)
    | some c ↦ ok (stats_of cid now c)
  ]

  -- The loop of ListContainerStats: `clock n` is the time that the call for the n-th container reads.
  unfoldable pub collect_stats : D.State → (ℕ → ℤ) → List CriContainer → List ContainerStats
  collect_stats s clock [] = []
  collect_stats s clock (c ∷ cs) =
      let rest = collect_stats s (λ n. clock (suc n)) cs in
      add_answer (container_stats s (clock zero) c.id) rest

  -- `none`: the panic of ListContainers.
  unfoldable pub stats_answer :
      D.State → (ℕ → ℤ) → Option (List CriContainer) → Option (List ContainerStats)
  stats_answer s clock none = none
  stats_answer s clock (some cs) = some (collect_stats s clock cs)

  unfoldable pub list_container_stats :
      D.State → (ℕ → ℤ) → Option StatsFilter → Option (List ContainerStats)
  list_container_stats s clock filter =
      stats_answer s clock (list_containers_handler D s (container_filter filter))
