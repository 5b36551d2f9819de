-- ===== src/Tests/Up.antt =====
-- A reconciliation of two VNIs.
use pierre.Base.{
  some, ℕ, ◌≡◌, refl, [], ◌∷◌, codes, ok, pos, arith, eq_text, All, Text, traverse, ok-injective,
  sym,
}
use pierre.Base.Decimal.{itoa}
use pierre.Base.Exec.{pure, each}
use pierre.Net.{net_string}
use pierre.Ipam.{vtep_ip, veth_ips}
use pierre.Api.{Vni}
use pierre.Frr.Config.{Config}
use pierre.Pods.{network_namespace}
use pierre.Conversion.Frr.{api_to_frr}
use pierre.HostNetwork.Home.{At}
use pierre.HostNetwork.Joint.{IsUp}
use pierre.Controller.Pod.{pod_is_ready}
use pierre.Controller.Node.{node_index}
use pierre.Controller.Reconcile.{Client, World, reconcile, router_pod_for_node}
use pierre.Controller.Reconcile.Effects.{Reads}
use pierre.Controller.Reconcile.Thread.{CallsStay}
use pierre.Controller.Reconcile.Up.{reconcile_lem}
use pierre.Controller.Reconcile.{
  reconcile_ready, reload_frr_config, configure_interfaces, setup_interfaces,
}
use pierre.HostNetwork.Names.{bridge_name, vxlan_name}
use pierre.HostNetwork.Vni.{setup_vni, setup_router_side}
use pierre.HostNetwork.Veth.{setup_veth}
use pierre.HostNetwork.Underlay.{setup_underlay}
use pierre.HostNetwork.Properties.{assign_ip_to_interface, interface_has_ip}
use pierre.HostNetwork.Namespace.{in_namespace}
use pierre.HostNetwork.Vrf.{setup_vrf, find_free_routing_table_id, find_from, taken_tables}
use pierre.HostNetwork.Bridge.{setup_bridge}
use pierre.HostNetwork.Vxlan.{setup_vxlan, vtep_address}
use pierre.Conversion.Host.{api_to_host_config}
use pierre.Conversion.Frr.{neighbor_to_frr, vni_to_frr}
use pierre.Conversion.Timers.{parse_timers}
use pierre.IpFamily.{for_addresses}
use pierre.Frr.Apply.{apply_config}
use pierre.Frr.Template.{template_config}
use pierre.FrrConfig.{updater_for_address}
use pierre.Tests.Demo.{demo_net}
use pierre.Tests.Node.{nodes, router_pod, reconciler}
use pierre.Tests.Resources.{underlay, red}
use pierre.Tests.Joint
use pierre.Tests.Joint.{blue, net, start, back, named, resources-IsDistinct}
use pierre.Tests.Slots.{
  Slots, slots, view, add, slots-AddKeeps, slots-Kernel, slots-Elsewhere, slots-NsLaws,
}

abbrev client : Client Slots
client = record {
  list_nodes = pure nodes;
  list_router_pods = λ node. pure (router_pod (codes "True") ∷ []);
  list_underlays = pure (underlay ∷ []);
  list_vnis = pure (red ∷ blue ∷ []);
}

abbrev world : World Slots ℕ
world = record Joint.world {
  client = client;
  runtime = record {
    list_pod_sandbox = λ uid. pure (some (codes "s1" ∷ []));
    pod_sandbox_status = λ id. pure (some (codes "{}"));
    unmarshal_namespaces =
        λ t. ok (record { type = codes "network"; path = codes "/var/run/netns/router" } ∷ []);
  };
}

world-Reads : Reads client
world-Reads = record {
  nodes = λ s. refl;
  pods = λ node s. refl;
  underlays = λ s. refl;
  vnis = λ s. refl;
}

world-CallsStay : CallsStay world (At view.current 7)
world-CallsStay = record {
  list_nodes = record { after = λ s i. i };
  list_router_pods = λ node. record { after = λ s i. i };
  list_underlays = record { after = λ s i. i };
  list_vnis = record { after = λ s i. i };
  list_pod_sandbox = λ uid. record { after = λ s i. i };
  pod_sandbox_status = λ id. record { after = λ s i. i };
  write_file = λ path text mode. record { after = λ s i. i };
  post = λ url. record { after = λ s i. i };
}

found :
    (s : Slots) (a : Text)
    → (network_namespace world.runtime (codes "u1") s).0 ≡ ok a
    → a ≡ codes "router"
unfolding network_namespace eq_text
found s a h = sym (ok-injective h)

at_start : view.current start ≡ 7
unfolding view
at_start = refl

abbrev after : Slots
after = (reconcile world reconciler start).1

succeeded : reconcile world reconciler start ≡ (ok tt, after)
unfolding reconcile reconcile_ready router_pod_for_node pod_is_ready eq_text node_index
    reload_frr_config configure_interfaces network_namespace setup_interfaces setup_vni setup_veth
    setup_router_side assign_ip_to_interface slots demo_net bridge_name vxlan_name itoa in_namespace
    setup_vrf setup_bridge setup_vxlan find_free_routing_table_id find_from taken_tables
    vtep_address setup_underlay each add api_to_host_config vtep_ip veth_ips traverse
    interface_has_ip view net_string api_to_frr neighbor_to_frr vni_to_frr for_addresses
    parse_timers apply_config template_config updater_for_address
succeeded = refl

reconcile_lem_example :
    (c : Config) × (api_to_frr net
        (node_index (λ less ns. ns) nodes (codes "worker"))
        (underlay ∷ [])
        (red ∷ blue ∷ [])
        (codes "info")
      ≡ ok c)
    × All (λ (x : Vni). IsUp view 1 x.spec.vrf (pos x.spec.vni) after) (red ∷ blue ∷ [])
unfolding router_pod_for_node pod_is_ready eq_text
reconcile_lem_example =
    reconcile_lem world view slots-Kernel slots-AddKeeps slots-Elsewhere slots-NsLaws 7 1
      (omega arith) back (codes "router") named world-CallsStay world-Reads reconciler nodes
      (router_pod (codes "True")) (underlay ∷ []) (red ∷ blue ∷ []) start after refl refl refl refl
      refl found resources-IsDistinct at_start succeeded
