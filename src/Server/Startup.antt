-- ===== src/Server/Startup.antt =====
-- How the main program starts, and with which data store.
use luna_for_mac.Base.{
  String, Bool, true, false, ◌≡◌, refl, subst, ◌∙◌, Option, none, some, List, ◌∷◌, ◌<>◌, contains,
  contains-append, Bool-cases, Option-cases, inl, inr,
}
use luna_for_mac.Path.{join_path}
use luna_for_mac.Server.{
  RuntimeService, new_runtime_service, ProcriServer, new_server, Served, serves, serve_error,
  no_listener, serve, Flags, data_store_base_path, registered, Host, bad_flags, Running, End,
  served, fatal, serving, start_server, main, IsPflag,
}

-- The server stands on the data store of the default path, for the host's address, and the two
-- directories of its records are there.
pub record IsStarted (mkdir_all : String → Bool) (build_version : String) (r : Running)
    : Type 0 where
  pub runtime_store :
      r.server.runtime_service.data_store ≡ "/tmp/procri-data.noindex/runtimeService"
  pub image_store : r.server.image_data_store ≡ "/tmp/procri-data.noindex/imageservice"
  pub build : r.server.runtime_service.runtime_version ≡ build_version
  pub sandbox_dir : mkdir_all "/tmp/procri-data.noindex/runtimeService/sandbox" ≡ true
  pub container_dir : mkdir_all "/tmp/procri-data.noindex/runtimeService/container" ≡ true

abbrev IfMade : {A : Type 0} → (A → Type 0) → Option A → Type 0
IfMade P none = Unit
IfMade P (some a) = P a

abbrev IfRunning : (Running → Type 0) → End → Type 0
IfRunning P (serving r) = P r
IfRunning P _ = Unit

-- What NewRuntimeService has made sure of.
abbrev MadeFor : (String → Bool) → String → String → RuntimeService → Type 0
MadeFor mkdir_all data_store version s =
    (s.data_store ≡ data_store)
    × (s.runtime_version ≡ version)
    × (mkdir_all (join_path data_store "sandbox/") ≡ true)
    × (mkdir_all (join_path data_store "container/") ≡ true)

new_runtime_service_made :
    (mkdir_all : String → Bool) (ip data_store version : String)
    → IfMade
        (MadeFor mkdir_all data_store version)
        (new_runtime_service mkdir_all ip data_store version)
unfolding new_runtime_service
new_runtime_service_made mkdir_all ip data_store version =
    elim (Bool-cases (mkdir_all (join_path data_store "sandbox/"))) [
      | inr e ↦ rw e tt
      | inl e ↦ elim (Bool-cases (mkdir_all (join_path data_store "container/"))) [
        | inr f ↦ rw (e, f) tt
        | inl f ↦ rw (e, f) (refl, refl, e, f)
      ]
    ]

abbrev HasStores : (String → Bool) → String → String → ProcriServer → Type 0
HasStores mkdir_all base_path version s =
    MadeFor mkdir_all (join_path base_path "runtimeService") version s.runtime_service
    × (s.image_data_store ≡ join_path base_path "imageservice")

new_server_made :
    (mkdir_all : String → Bool) (ip base_path version : String)
    → IfMade (HasStores mkdir_all base_path version) (new_server mkdir_all ip base_path version)
unfolding new_server
new_server_made mkdir_all ip base_path version =
    let store = join_path base_path "runtimeService" in
    let made = new_runtime_service_made mkdir_all ip store version in
    elim (Option-cases (new_runtime_service mkdir_all ip store version)) [
      | inl e ↦ rw (e, new_server) tt
      | inr (s, e) ↦
          rw (e, new_server) (subst (IfMade (MadeFor mkdir_all store version)) e made, refl)
    ]

served_running : (P : Running → Type 0) (r : Running) (s : Served) → P r → IfRunning P (served r s)
served_running P r serve_error h = tt
served_running P r no_listener h = tt
served_running P r serves h = h

HasStores-IsStarted :
    (h : Host) (version : String) (r : Running)
    → HasStores h.mkdir_all data_store_base_path version r.server
    → IsStarted h.mkdir_all version r
unfolding join_path
HasStores-IsStarted h version r (made, image) = record {
  runtime_store = made.0;
  image_store = image;
  build = made.1;
  sandbox_dir = made.2;
  container_dir = made.3;
}

start_server_running :
    (h : Host) (version : String) (f : Flags) (ip : String)
    → IfRunning (IsStarted h.mkdir_all version) (start_server h version f ip)
unfolding start_server
start_server_running h version f ip =
    let made = new_server_made h.mkdir_all ip data_store_base_path version in
    elim (Bool-cases h.streaming_ok) [
      | inr a ↦ rw a tt
      | inl a ↦ elim (Bool-cases (h.mkdir_all data_store_base_path)) [
        | inr b ↦ rw (a, b) tt
        | inl b ↦ elim (Option-cases (new_server h.mkdir_all ip data_store_base_path version)) [
          | inl e ↦ rw (a, b, e) tt
          | inr (s, e) ↦
              rw (a, b, e)
                (served_running (IsStarted h.mkdir_all version) _ (serve h.unlink h.listens) (
                  HasStores-IsStarted h version _
                    (subst (IfMade (HasStores h.mkdir_all data_store_base_path version)) e made)))
        ]
      ]
    ]

main_running :
    (h : Host) (version : String) (args : List String)
    → IfRunning (IsStarted h.mkdir_all version) (main h version args)
unfolding main
main_running h version args = elim (Bool-cases h.set_ok) [
  | inr a ↦ rw a tt
  | inl a ↦ elim (Option-cases (h.parse (registered h.klog_flags) args)) [
    | inl b ↦ rw (a, b) tt
    | inr (f, b) ↦ elim (Bool-cases f.print_version) [
      | inl c ↦ rw (a, b, c) tt
      | inr c ↦ elim (Option-cases h.address) [
        | inl d ↦ rw (a, b, c, d) tt
        | inr (ip, d) ↦ rw (a, b, c, d) (start_server_running h version f ip)
      ]
    ]
  ]
]

-- Whatever the arguments, a main program that comes to serve has the given version, keeps its
-- records and its images in two directories of the default path, and has made the directories of
-- the sandboxes and the containers.
pub main-IsStarted :
    (h : Host) (version : String) (args : List String) (r : Running)
    → main h version args ≡ serving r
    → IsStarted h.mkdir_all version r
main-IsStarted h version args r e =
    subst (IfRunning (IsStarted h.mkdir_all version)) e (main_running h version args)

-- An argument that sets the flag data-store, if it comes first, ends the main program, whatever its
-- value. `pflag.Set` succeeds, klog has no flag of that name, and `pflag.Parse` ends the program at
-- a flag that is not registered, as documented.
pub main_refuses_data_store :
    (h : Host) (version value : String) (args : List String)
    → IsPflag h.parse
    → h.set_ok ≡ true
    → contains h.klog_flags "data-store" ≡ false
    → main h version (("--" <> ("data-store" <> ("=" <> value))) ∷ args) ≡ fatal bad_flags
unfolding main
main_refuses_data_store h version value args p set_ok other =
    let unknown : contains (registered h.klog_flags) "data-store" ≡ false =
      contains-append h.klog_flags _ "data-store" ∙ rw other refl in
    rw
      (
        set_ok,
        p.unknown (registered h.klog_flags) "data-store" value args
            (refl, (refl, (refl, (refl, (refl, (refl, (refl, (refl, (refl, (refl, tt))))))))))
            unknown,
      )
      refl
