-- ===== src/Streaming/Setup.antt =====
-- The set-up of the streaming server: NewStreamingServer and newStreamingRuntime of
-- procri/pkg/streaming/streaming.go.
use luna_for_mac.Base.{ℕ, String, Bool, Option, List}
use luna_for_mac.Streaming.{Result, Event, Process, Forward, exec, attach, port_forward}

-- k8sstreaming.Runtime: what the server of Kubernetes calls for a request.
pub record StreamingRuntime : Type 0 where
  pub run_exec : Process → List String → Bool → Bool → Result × List Event
  pub run_attach : Result
  pub run_port_forward : ℕ → Forward → Result × List Event

abbrev pub new_streaming_runtime : StreamingRuntime
new_streaming_runtime = record {
  run_exec = exec;
  run_attach = attach;
  run_port_forward = port_forward;
}

-- The package k8s.io/kubernetes/pkg/kubelet/server/streaming, which is not part of the repository.
pub record Kubernetes : Type 1 where
  pub ServerConfig : Type 0
  pub Server : Type 0
  pub default_config : ServerConfig
  pub with_addr : String → ServerConfig → ServerConfig
  pub make_server : ServerConfig → StreamingRuntime → Option Server

-- `none` is an error.
abbrev pub new_streaming_server : (K : Kubernetes) → String → Option K.Server
new_streaming_server K addr =
    K.make_server (K.with_addr addr K.default_config) new_streaming_runtime
