-- ===== src/Runtime/Listing.antt =====
-- The handlers that list and describe containers and sandboxes, with their filters: ListContainers
-- and ContainerStatus of procri/pkg/runtimeservice/container.go, ListPodSandbox of podsandbox.go.
pub mod Labels
pub mod Filters
pub mod Status
pub mod Stored
use luna_for_mac.Base.{
  ℕ, suc, ◌+◌, String, Bool, true, false, ◌&&◌, Option, none, some, List, [], ◌∷◌, map, ◌==◌,
  if◌then◌else◌, length, nat_eq, keep,
}
use luna_for_mac.Base.Int.{ℤ, int_eq}
use luna_for_mac.Json.{TextMap}
use luna_for_mac.Disk.{Diskv}
use luna_for_mac.Runtime.Container.{Container}
use luna_for_mac.Runtime.Sandbox.{Sandbox}
use luna_for_mac.Runtime.Records.{get_container, list_containers, list_sandboxes}
use luna_for_mac.Runtime.Types.{Outcome, ok, err, container_not_found}
use luna_for_mac.Runtime.Create.{Metadata, PodMetadata}

-- The inner loop of the filters by label, for one label of the selector.
unfoldable pub label_matches : String × String → TextMap → ℕ
label_matches label [] = 0
label_matches label ((k, v) ∷ own) =
    let rest = label_matches label own in if k == label.0 && v == label.1 then suc rest else rest

unfoldable pub matches : TextMap → TextMap → ℕ
matches [] own = 0
matches (label ∷ labels) own = label_matches label own + matches labels own

-- The filters by label, for containers and for sandboxes.
unfoldable pub filter_by_label {ℓ} : {A : Type ℓ} → (A → TextMap) → TextMap → List A → List A
filter_by_label own [] cs = cs
filter_by_label own (label ∷ labels) cs =
    keep (λ c. nat_eq (matches (label ∷ labels) (own c)) (length (label ∷ labels))) cs

-- The filters by state.
unfoldable pub filter_by_state {ℓ} : {A : Type ℓ} → (A → ℤ) → Option ℤ → List A → List A
filter_by_state state none cs = cs
filter_by_state state (some z) cs = keep (λ c. int_eq (state c) z) cs

-- The filters by an id.
unfoldable pub filter_by_text {ℓ} : {A : Type ℓ} → (A → String) → String → List A → List A
filter_by_text text id cs = if id == "" then cs else keep (λ c. text c == id) cs

-- cri.ContainerFilter and cri.PodSandboxFilter. A nil state is `none`.
pub record Filter : Type 0 where
  pub id : String
  pub state : Option ℤ
  pub pod_sandbox_id : String
  pub label_selector : TextMap

abbrev filter_containers_by_label : TextMap → List Container → List Container
filter_containers_by_label labels cs = filter_by_label (λ c. c.labels) labels cs

abbrev filter_containers_by_state : Option ℤ → List Container → List Container
filter_containers_by_state state cs = filter_by_state (λ c. c.state) state cs

abbrev filter_containers_by_pod_sandbox_id : String → List Container → List Container
filter_containers_by_pod_sandbox_id sandbox_id cs = filter_by_text (λ c. c.pod_id) sandbox_id cs

abbrev filter_containers_by_id : String → List Container → List Container
filter_containers_by_id container_id cs = filter_by_text (λ c. c.id) container_id cs

unfoldable pub filter_containers : List Container → Filter → List Container
filter_containers cs f = filter_containers_by_id f.id (
    filter_containers_by_state f.state (
      filter_containers_by_label f.label_selector
        (filter_containers_by_pod_sandbox_id f.pod_sandbox_id cs)))

abbrev filter_pods_by_name : String → List Sandbox → List Sandbox
filter_pods_by_name pod_id pods = filter_by_text (λ p. p.id) pod_id pods

abbrev filter_pods_by_label : TextMap → List Sandbox → List Sandbox
filter_pods_by_label labels pods = filter_by_label (λ p. p.labels) labels pods

abbrev filter_pods_by_state : Option ℤ → List Sandbox → List Sandbox
filter_pods_by_state state pods = filter_by_state (λ p. p.state) state pods

-- The filters of ListPodSandbox; a nil filter is `none`.
unfoldable pub filter_pods : List Sandbox → Option Filter → List Sandbox
filter_pods pods none = pods
filter_pods pods (some f) =
    filter_pods_by_state f.state
      (filter_pods_by_label f.label_selector (filter_pods_by_name f.id pods))

-- cri.Container
pub record CriContainer : Type 0 where
  pub id : String
  pub pod_sandbox_id : String
  pub created_at : ℤ
  pub state : ℤ
  pub labels : TextMap
  pub annotations : TextMap
  pub metadata : Metadata
  pub image : String
  pub image_ref : String

abbrev pub container_to_cri_container : Container → CriContainer
container_to_cri_container c = record {
  id = c.id;
  pod_sandbox_id = c.pod_id;
  created_at = c.created_at;
  state = c.state;
  labels = c.labels;
  annotations = c.annotations;
  metadata = record { name = c.name; attempt = c.attempt };
  image = c.image;
  image_ref = c.image;
}

-- cri.PodSandbox
pub record CriPod : Type 0 where
  pub id : String
  pub metadata : PodMetadata
  pub state : ℤ
  pub created_at : ℤ
  pub labels : TextMap
  pub annotations : TextMap

abbrev pub listed_pod : Sandbox → CriPod
listed_pod p = record {
  id = p.id;
  metadata = record { name = p.name; namespace = p.namespace; uid = p.uid; attempt = p.attempt };
  state = p.state;
  created_at = p.created_at;
  labels = p.labels;
  annotations = p.annotations;
}

-- cri.ContainerStatus, but for its fields that are always empty.
pub record ContainerStatus : Type 0 where
  pub id : String
  pub metadata : Metadata
  pub state : ℤ
  pub created_at : ℤ
  pub started_at : ℤ
  pub finished_at : ℤ
  pub exit_code : ℤ
  pub image : String
  pub image_ref : String
  pub labels : TextMap
  pub annotations : TextMap
  pub log_path : String

abbrev pub status_of_container : String → Container → ContainerStatus
status_of_container cid c = record {
  id = cid;
  metadata = record { name = c.name; attempt = c.attempt };
  state = c.state;
  created_at = c.created_at;
  started_at = c.started_at;
  finished_at = c.finished_at;
  exit_code = c.exit_code;
  image = c.image;
  image_ref = c.image;
  labels = c.labels;
  annotations = c.annotations;
  log_path = c.log_path;
}

module _ (D : Diskv) where
  -- `none`: a nil filter, whose fields are read all the same, ends the handler with a panic.
  unfoldable pub list_containers_handler : D.State → Option Filter → Option (List CriContainer)
  list_containers_handler s none = none
  list_containers_handler s (some f) =
      some (map container_to_cri_container (filter_containers (list_containers D s) f))

  unfoldable pub list_pod_sandbox : D.State → Option Filter → List CriPod
  list_pod_sandbox s filter = map listed_pod (filter_pods (list_sandboxes D s) filter)

  unfoldable pub container_status : D.State → String → Outcome ContainerStatus
  container_status s cid = elim (get_container D s cid) [
    | none ↦ err (container_not_found cid)
    | some c ↦ ok (status_of_container cid c)
  ]
