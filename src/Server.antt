-- ===== src/Server.antt =====
-- The server and the main program, procri/pkg/server/server.go and procri/cmd/procri/main.go, with the
-- constructors of the two services. What the flag package, the network and the file system answer is
-- an argument.
pub mod Startup
pub mod Lifecycle
mod Tests
use luna_for_mac.Base.{
  String, Bool, true, false, not, ◌≡◌, Option, none, some, List, [], ◌∷◌, ◌++◌, ◌<>◌, if◌then◌else◌,
  contains, Lacks,
}
use luna_for_mac.Base.Int.{ℤ}
use luna_for_mac.Path.{join_path}
use luna_for_mac.Runtime.Records.{sandbox_subdir, container_subdir}

-- runtimeservice.RuntimeService, but for its streaming server: the directory of its data store, the
-- address and the version.
pub record RuntimeService : Type 0 where
  pub data_store : String
  pub ip_address : String
  pub runtime_version : String

-- `NewRuntimeService`; `mkdir_all` tells whether the directory is there afterwards.
unfoldable pub new_runtime_service :
    (String → Bool) → String → String → String → Option RuntimeService
new_runtime_service mkdir_all ip_address data_store runtime_version =
    if not (mkdir_all (join_path data_store sandbox_subdir))
    then none
    else if not (mkdir_all (join_path data_store container_subdir))
    then none
    else some (record {
      data_store = data_store;
      ip_address = ip_address;
      runtime_version = runtime_version;
    })

-- server.ProcriServer before it listens, with the directory of the image service's data store.
pub record ProcriServer : Type 0 where
  pub runtime_service : RuntimeService
  pub image_data_store : String

-- `NewServer`
unfoldable pub new_server : (String → Bool) → String → String → String → Option ProcriServer
new_server mkdir_all ip_address base_path runtime_version =
    let image_data_store = join_path base_path "imageservice" in
    let runtime_data_store = join_path base_path "runtimeService" in
    elim (new_runtime_service mkdir_all ip_address runtime_data_store runtime_version) [
      | none ↦ none
      | some service ↦
          some (record { runtime_service = service; image_data_store = image_data_store })
    ]

pub data Unlinked : Type 0 where
  unlinked not_there unlink_failed : Unlinked

-- `Serve` returned an error, ended the program, or listens.
pub data Served : Type 0 where
  serve_error no_listener serves : Served

unfoldable pub serve : Unlinked → Bool → Served
serve unlink_failed listens = serve_error
serve unlinked listens = if listens then serves else no_listener
serve not_there listens = if listens then serves else no_listener

-- The flags that `pflag` knows of.
pub record Flags : Type 0 where
  pub print_version : Bool
  pub streaming_port : ℤ
  pub listen : String

-- `dataStoreBasePath` is a flag of the package `flag`, whose command line is never parsed: it keeps
-- its default.
abbrev pub data_store_base_path : String
data_store_base_path = "/tmp/procri-data.noindex"

abbrev pub registered : List String → List String
registered klog_flags = klog_flags ++ "version" ∷ "streaming-port" ∷ "listen" ∷ []

-- What is outside: klog's flags, whether `pflag.Set` succeeds, `pflag.Parse` for the registered names
-- and the arguments, where `none` ends the program, the host's address, the decimal digits of a number,
-- whether the streaming server is made, what `MkdirAll` does, and how the socket is unlinked and listened at.
pub record Host : Type 0 where
  pub klog_flags : List String
  pub set_ok : Bool
  pub parse : List String → List String → Option Flags
  pub address : Option String
  pub decimal : ℤ → String
  pub streaming_ok : Bool
  pub mkdir_all : String → Bool
  pub unlink : Unlinked
  pub listens : Bool

pub data Failure : Type 0 where
  flag_not_set bad_flags no_address no_streaming_server no_directory no_server not_serving : Failure

pub record Running : Type 0 where
  pub server : ProcriServer
  pub socket : String
  pub streaming_address : String

pub data End : Type 0 where
  printed_version : End
  fatal : Failure → End
  serving : Running → End

abbrev pub served : Running → Served → End
served r serve_error = fatal not_serving
served r no_listener = fatal not_serving
served r serves = serving r

-- `main` from the choice of the address on.
unfoldable pub start_server : Host → String → Flags → String → End
start_server h build_version f ip =
    if not h.streaming_ok
    then fatal no_streaming_server
    else if not (h.mkdir_all data_store_base_path)
    then fatal no_directory
    else elim (new_server h.mkdir_all ip data_store_base_path build_version) [
      | none ↦ fatal no_server
      | some server ↦
          served
            (record {
              server = server;
              socket = f.listen;
              streaming_address = ip <> (":" <> h.decimal f.streaming_port);
            })
            (serve h.unlink h.listens)
    ]

unfoldable pub main : Host → String → List String → End
main h build_version args =
    if not h.set_ok then fatal flag_not_set else elim (h.parse (registered h.klog_flags) args) [
      | none ↦ fatal bad_flags
      | some f ↦ if f.print_version then printed_version else elim h.address [
        | none ↦ fatal no_address
        | some ip ↦ start_server h build_version f ip
      ]
    ]

-- `pflag.Parse` ends the program at a flag that is not registered.
pub record IsPflag (parse : List String → List String → Option Flags) : Type 0 where
  pub unknown :
      (names : List String) (name value : String) (args : List String)
      → Lacks b'=' name
      → contains names name ≡ false
      → parse names (("--" <> (name <> ("=" <> value))) ∷ args) ≡ none
