-- ===== src/Runtime/Tests/Listed.antt =====
-- Listing the store in memory, and asking for a status and the version.
use luna_for_mac.Base.{String, In, Lacks, ◌↔◌, true, ◌≡◌, ◌≢◌, refl, some, [], ◌∷◌, ◌++◌, map, keep}
use luna_for_mac.Base.Int.{pos}
use luna_for_mac.Disk.Memory.{memory, memory-IsListing}
use luna_for_mac.Runtime.Records.{get_container, list_containers}
use luna_for_mac.Runtime.Types.{container_running, sandbox_ready}
use luna_for_mac.Runtime.Start.{Launch}
use luna_for_mac.Runtime.Start.Started.{Starts}
use luna_for_mac.Runtime.Listing.{
  Filter, container_to_cri_container, list_containers_handler, filter_containers, filter_by_text,
  filter_by_label, filter_by_state, matches, label_matches,
}
use luna_for_mac.Runtime.Listing.Filters.{selects, list_containers_handler_lem}
use luna_for_mac.Path.{slash}
use luna_for_mac.Runtime.Listing.Stored.{list_containers_iff}
use luna_for_mac.Runtime.Version.{version, convert_to_sem_ver}
use luna_for_mac.Runtime.Tests.{cnt, store}

abbrev by_label : Filter
by_label = record {
  id = "";
  state = some sandbox_ready;
  pod_sandbox_id = "";
  label_selector = ("app", "web") ∷ [];
}

abbrev by_state : Filter
by_state = record {
  id = "c1";
  state = some container_running;
  pod_sandbox_id = "default_web";
  label_selector = [];
}

test_filter_containers :
    (filter_containers (cnt ∷ []) by_state ≡ cnt ∷ [])
    × (filter_containers (cnt ∷ []) by_label ≡ [])
unfolding filter_containers filter_by_text filter_by_label filter_by_state matches label_matches
test_filter_containers = (refl, refl)

list_containers_handler_lem_example :
    list_containers_handler memory store (some by_state)
    ≡ some (map container_to_cri_container (keep (selects by_state) (list_containers memory store)))
list_containers_handler_lem_example = list_containers_handler_lem memory store by_state

abbrev launch : Launch
launch = record {
  mkdir_ok = true;
  stdout_ok = true;
  stderr_ok = true;
  pid = some (pos 42);
  log_ok = true;
  now = pos 10;
}

starts : Starts launch (pos 42)
starts = record { stdout_ok = refl; stderr_ok = refl; has_pid = refl }

has_command : cnt.command ++ cnt.args ≢ []
has_command h = cc

test_version :
    ((version "v0.0.1" "0.1.0").runtime_version ≡ "v0.0.1")
    × ((version "v0.0.1-12-gf102854-dirty" "0.1.0").runtime_version ≡ "v0.0.1")
unfolding convert_to_sem_ver
test_version = (refl, refl)

list_containers_iff_example :
    In cnt (list_containers memory store)
    ↔ ((k : String) × Lacks slash k × (get_container memory store k ≡ some cnt))
list_containers_iff_example = list_containers_iff memory memory-IsListing store cnt
