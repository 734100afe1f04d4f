-- ===== src/Server/Tests.antt =====
-- A start of the main program, with a parser that knows flags of the form `--name=value`.
use luna_for_mac.Base.{
  String, true, false, ◌≡◌, refl, none, some, Option, List, [], ◌∷◌, ◌<>◌, contains, if◌then◌else◌,
  split, split-append, Lacks,
}
use luna_for_mac.Base.Int.{pos}
use luna_for_mac.Path.{join_path}
use luna_for_mac.Image.{first_part}
use luna_for_mac.Runtime.Records.{without_prefix}
use luna_for_mac.Server.{
  Flags, Host, Running, not_there, main, start_server, new_server, new_runtime_service, serve,
  serving, fatal, bad_flags, IsPflag,
}
use luna_for_mac.Server.Startup.{main_refuses_data_store}

abbrev default_flags : Flags
default_flags = record {
  print_version = false;
  streaming_port = pos 8099;
  listen = "/var/run/procri.sock";
}

flag_name : String → String
flag_name arg = first_part (split b'=' (without_prefix "--" arg))

unfoldable parse : List String → List String → Option Flags
parse names [] = some default_flags
parse names (arg ∷ args) =
    let rest = parse names args in if contains names (flag_name arg) then rest else none

flag_name_lem :
    (name value : String) → Lacks b'=' name → flag_name ("--" <> (name <> ("=" <> value))) ≡ name
unfolding flag_name
flag_name_lem name value l = rw (split-append b'=' "=" name value l refl) refl

parse-IsPflag : IsPflag parse
unfolding parse
parse-IsPflag = record {
  unknown = λ names name value args l h. rw (flag_name_lem name value l, h) refl;
}

abbrev host : Host
host = record {
  klog_flags = "v" ∷ "logtostderr" ∷ [];
  set_ok = true;
  parse = parse;
  address = some "10.0.0.7";
  decimal = λ n. "8099";
  streaming_ok = true;
  mkdir_all = λ path. true;
  unlink = not_there;
  listens = true;
}

abbrev started : Running
started = record {
  server = record {
    runtime_service = record {
      data_store = "/tmp/procri-data.noindex/runtimeService";
      ip_address = "10.0.0.7";
      runtime_version = "v0.0.1";
    };
    image_data_store = "/tmp/procri-data.noindex/imageservice";
  };
  socket = "/var/run/procri.sock";
  streaming_address = "10.0.0.7:8099";
}

starts : main host "v0.0.1" ("--v=5" ∷ []) ≡ serving started
unfolding main start_server new_server new_runtime_service serve parse flag_name join_path split
starts = refl

main_refuses_data_store_example :
    main host "v0.0.1" (("--" <> ("data-store" <> ("=" <> "/data"))) ∷ "--v=5" ∷ [])
    ≡ fatal bad_flags
main_refuses_data_store_example =
    main_refuses_data_store host "v0.0.1" "/data" ("--v=5" ∷ []) parse-IsPflag refl refl
