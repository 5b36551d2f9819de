-- ===== src/Controller/Reconcile.antt =====
-- internal/controller: one reconciliation (controller.go), the reload of FRR (frr.go) and the
-- configuration of the host's interfaces (host_config.go).
pub mod Effects
pub mod Accepted
pub mod Thread
pub mod Interfaces
pub mod Again
pub mod Up
use pierre.Base.{
  ℕ, ◌++◌, List, Text, codes, Option, some, Result, ok, err, Error, if◌then◌else◌, Bool,
}
use pierre.Base.Decimal.{itoa_ℕ}
use pierre.Base.Exec.{Exec, pure, lift, annotate, replace, each, ◌>>=◌, ◌>>◌}
use pierre.Net.{Net}
use pierre.Api.{Underlay, Vni}
use pierre.Frr.Apply.{apply_config}
use pierre.FrrConfig.{updater_for_address}
use pierre.Pods.{Runtime, network_namespace}
use pierre.Conversion.Frr.{api_to_frr}
use pierre.Conversion.Host.{api_to_host_config}
use pierre.HostNetwork.Params.{UnderlayParams, VniParams}
use pierre.HostNetwork.Netlink.{Netlink}
use pierre.HostNetwork.Underlay.{setup_underlay}
use pierre.HostNetwork.Vni.{setup_vni}
use pierre.Controller.Pod.{Pod, pod_is_ready, only_pod}
use pierre.Controller.Node.{Node, node_index}

-- The Kubernetes client, as far as it is called: lists of the nodes, of the router's pods on a node
-- and of the custom resources.
pub record Client (State : Type 0) : Type 0 where
  pub list_nodes : Exec State (List Node)
  pub list_router_pods : Text → Exec State (List Pod)
  pub list_underlays : Exec State (List Underlay)
  pub list_vnis : Exec State (List Vni)

-- The rest of what is around the controller.
pub record World (State Ns : Type 0) : Type 0 where
  pub client : Client State
  pub runtime : Runtime State
  pub netlink : Netlink State Ns
  pub net : Net
  pub sort_slice : (Node → Node → Bool) → List Node → List Node
  pub os_hostname : Result Text
  pub write_file : Text → Text → ℕ → Exec State Unit
  pub post : Text → Exec State ℕ

-- The fields of PERouterReconciler that a reconciliation reads.
pub record Reconciler : Type 0 where
  pub my_node : Text
  pub frr_config : Text
  pub reload_port : ℕ
  pub log_level : Text

module _ {State Ns : Type 0} (w : World State Ns) where
  open w use {client, runtime, netlink, net, sort_slice, os_hostname, write_file, post}

  -- The controller's nodeIndex, with the call of the client.
  unfoldable pub fetch_node_index : Text → Exec State ℕ
  fetch_node_index node = do
    nodes ← annotate "failed to list nodes" client.list_nodes
    pure (node_index sort_slice nodes node)

  -- routerPodForNode
  unfoldable pub router_pod_for_node : Text → Exec State Pod
  unfolding only_pod
  router_pod_for_node node = do
    pods ← replace "failed to get router pod for node" (client.list_router_pods node)
    lift (only_pod pods)

  -- The file, the address and the port of frrConfigData, and its resources.
  unfoldable pub reload_frr_config :
      Text → Text → ℕ → ℕ → Text → List Underlay → List Vni → Exec State Unit
  unfolding itoa_ℕ
  reload_frr_config config_file address port index log_level underlays vnis = do
    frr_config ←
        annotate "failed to generate the frr configuration"
          (lift (api_to_frr net index underlays vnis log_level))
    let url = address ++ codes ":" ++ itoa_ℕ port
    annotate "failed to update the frr configuration"
        (apply_config (updater_for_address write_file post url config_file) os_hostname frr_config)

  -- What configureInterfaces does with the parameters.
  unfoldable pub setup_interfaces : UnderlayParams × List VniParams → Exec State Unit
  setup_interfaces (underlay, vnis) = do
    annotate "failed to setup underlay" (setup_underlay netlink net underlay)
    each (λ v. annotate "failed to setup vni" (setup_vni netlink net v)) vnis

  unfoldable pub configure_interfaces : Text → ℕ → List Underlay → List Vni → Exec State Unit
  unfolding setup_interfaces
  configure_interfaces pod_uid index underlays vnis = do
    target_ns ← annotate "failed to retrieve namespace for pod" (network_namespace runtime pod_uid)
    params ←
        annotate "failed to convert config to host configuration"
          (lift (api_to_host_config net index target_ns underlays vnis))
    setup_interfaces params

  -- Reconcile, from the point on at which the router's pod is known to be ready.
  unfoldable pub reconcile_ready : Reconciler → ℕ → Pod → Exec State Unit
  reconcile_ready r index router_pod = do
    underlays ← client.list_underlays
    vnis ← client.list_vnis
    reload_frr_config r.frr_config router_pod.pod_ip r.reload_port index r.log_level underlays vnis
    configure_interfaces router_pod.uid index underlays vnis

  unfoldable pub reconcile : Reconciler → Exec State Unit
  unfolding fetch_node_index
  reconcile r = do
    index ← fetch_node_index r.my_node
    router_pod ← router_pod_for_node r.my_node
    let ready = reconcile_ready r index router_pod
    if pod_is_ready (some router_pod) then ready else pure tt
