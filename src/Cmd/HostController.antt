-- ===== src/Cmd/HostController.antt =====
-- cmd/hostcontroller/main.go: the flags of the controller, and the order in which it is put
-- together. An error is what the process prints before it exits with status 1.
use pierre.Base.{ℕ, Bool, true, false, List, [], ◌∷◌, Text, codes, if◌then◌else◌}
use pierre.Base.Exec.{Exec, annotate, ◌>>=◌, ◌>>◌}
use pierre.Logging.{Level, new_logger}
use pierre.Cmd.Flags.{Flag, string_flag, bool_flag, int_flag, Values}
use pierre.Pods.{new_runtime}
use pierre.Controller.Pod.{Object}
use pierre.Controller.Manager.{Builder, Predicates, setup_with_manager}
use pierre.Controller.Reconcile.{Reconciler}

pub record Flags : Type 0 where
  pub metrics_addr : Text
  pub probe_addr : Text
  pub secure_metrics : Bool
  pub enable_http2 : Bool
  pub node_name : Text
  pub namespace : Text
  pub log_level : Text
  pub frr_config_path : Text
  pub reload_port : ℕ
  pub cri_socket : Text

-- The flags that are registered, with their defaults.
abbrev pub registered : List Flag
registered =
    string_flag (codes "metrics-bind-address") (codes "0")
    ∷ string_flag (codes "health-probe-bind-address") (codes ":9081")
    ∷ bool_flag (codes "metrics-secure") true
    ∷ bool_flag (codes "enable-http2") false
    ∷ string_flag (codes "nodename") []
    ∷ string_flag (codes "namespace") []
    ∷ string_flag (codes "loglevel") (codes "info")
    ∷ string_flag (codes "frrconfig") (codes "/etc/perouter/frr/frr.conf")
    ∷ int_flag (codes "reloadport") 9080
    ∷ string_flag (codes "crisocket") (codes "/var/run/containerd/containerd.sock")
    ∷ []

-- The variables that the flags are stored in.
abbrev pub flags_of : Values → Flags
flags_of v = record {
  metrics_addr = v.string (codes "metrics-bind-address");
  probe_addr = v.string (codes "health-probe-bind-address");
  secure_metrics = v.bool (codes "metrics-secure");
  enable_http2 = v.bool (codes "enable-http2");
  node_name = v.string (codes "nodename");
  namespace = v.string (codes "namespace");
  log_level = v.string (codes "loglevel");
  frr_config_path = v.string (codes "frrconfig");
  reload_port = v.int (codes "reloadport");
  cri_socket = v.string (codes "crisocket");
}

-- The field of tls.Config that is set.
pub record TlsConfig : Type 0 where
  pub next_protos : List Text

unfoldable pub disable_http2 : TlsConfig → TlsConfig
disable_http2 c = record { next_protos = codes "http/1.1" ∷ [] }

-- metricsserver.Options. The filter is that of authentication and authorization, or none.
pub record MetricsOptions : Type 0 where
  pub bind_address : Text
  pub secure_serving : Bool
  pub tls_opts : List (TlsConfig → TlsConfig)
  pub filter_provider : Bool

pub record ManagerOptions : Type 0 where
  pub metrics : MetricsOptions
  pub health_probe_bind_address : Text

unfoldable pub manager_options : Flags → ManagerOptions
unfolding disable_http2
manager_options f = record {
  metrics = record {
    bind_address = f.metrics_addr;
    secure_serving = f.secure_metrics;
    tls_opts = if f.enable_http2 then [] else disable_http2 ∷ [];
    filter_provider = f.secure_metrics;
  };
  health_probe_bind_address = f.probe_addr;
}

-- The reconciler, but for its client, its logger and its connection to the container runtime.
unfoldable pub reconciler_of : Flags → Reconciler
reconciler_of f = record {
  my_node = f.node_name;
  frr_config = f.frr_config_path;
  reload_port = f.reload_port;
  log_level = f.log_level;
}

-- The libraries that are called. `Connection` is a connection to the container runtime.
pub record Wiring (State Connection Predicate : Type 0) : Type 0 where
  pub predicates : Predicates Predicate
  pub add_client_go_scheme : Exec State Unit
  pub add_api_scheme : Exec State Unit
  -- flag.Parse with the flags that are registered; an error ends the process.
  pub parse : List Flag → Exec State Values
  pub set_default : Level → Exec State Unit
  -- ctrl.NewManager, on the configuration of ctrl.GetConfigOrDie, which ends the process if there is
  -- none.
  pub new_manager : ManagerOptions → Exec State Unit
  pub dial : Text → Exec State Connection
  pub index_field : Text → (Object → List Text) → Exec State Unit
  pub complete : Connection → Reconciler → Builder Predicate → Exec State Unit
  pub add_healthz_check : Text → Exec State Unit
  pub add_readyz_check : Text → Exec State Unit
  pub start : Exec State Unit

module _ {State Connection Predicate : Type 0} (w : Wiring State Connection Predicate) where
  open w use {
    add_client_go_scheme, add_api_scheme, parse, set_default, new_manager, dial, predicates,
    index_field, complete, add_healthz_check, add_readyz_check, start,
  }

  -- utilruntime.Must: an error is a panic.
  unfoldable pub init : Exec State Unit
  init = do add_client_go_scheme; add_api_scheme

  -- main behind the parsing of the flags.
  unfoldable pub run : Flags → Exec State Unit
  unfolding new_logger manager_options new_runtime setup_with_manager reconciler_of
  run f = do
    annotate "unable to init logger" (new_logger set_default f.log_level)
    annotate "unable to start manager" (new_manager (manager_options f))
    pod_runtime ← annotate "connect to crio" (new_runtime dial f.cri_socket)
    annotate "unable to create controller" (
        setup_with_manager predicates index_field (complete pod_runtime (reconciler_of f))
          f.node_name f.namespace)
    annotate "unable to set up health check" (add_healthz_check (codes "healthz"))
    annotate "unable to set up ready check" (add_readyz_check (codes "readyz"))
    annotate "problem running manager" start

  unfoldable pub main : Exec State Unit
  unfolding run
  main = do values ← parse registered; run (flags_of values)
