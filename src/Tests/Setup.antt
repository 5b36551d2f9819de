-- ===== src/Tests/Setup.antt =====
-- SetupVNI on a machine that has the loopback of the VTEP only.
use pierre.Base.{ℕ, ◌≡◌, refl, [], ◌∷◌, codes, ok, pos, eq_text}
use pierre.Base.Decimal.{itoa}
use pierre.HostNetwork.Params.{VniParams}
use pierre.HostNetwork.Netlink.{dummy}
use pierre.HostNetwork.Names.{bridge_name, vxlan_name}
use pierre.HostNetwork.Vni.{setup_vni, setup_router_side}
use pierre.HostNetwork.Veth.{setup_veth}
use pierre.HostNetwork.Properties.{assign_ip_to_interface}
use pierre.HostNetwork.Namespace.{in_namespace}
use pierre.HostNetwork.Vrf.{setup_vrf, find_free_routing_table_id, find_from, taken_tables}
use pierre.HostNetwork.Bridge.{setup_bridge}
use pierre.HostNetwork.Vxlan.{setup_vxlan, vtep_address}
use pierre.HostNetwork.Setup.Router.{IsSetUp}
use pierre.HostNetwork.Setup.Vni.{setup_vni_lem}
use pierre.Tests.Demo.{demo_net}
use pierre.Tests.Plain.{red-IsPlain}
use pierre.Tests.Slots.{Slots, slots, view, slots-AddKeeps, slots-Kernel}

abbrev pub params : VniParams
params = record {
  vrf = codes "red";
  target_ns = codes "router";
  vtep_ip = codes "100.65.0.0/24";
  veth_host_ip = codes "192.169.10.1/24";
  veth_ns_ip = codes "192.169.10.0/24";
  vni = pos 100;
  vxlan_port = pos 4789;
}

abbrev state : Slots
state = record {
  links = record { index = 0; name = codes "lound"; master_index = 0; kind = dummy } ∷ [];
  current = 7;
}

abbrev after : Slots
after = (setup_vni slots demo_net params state).1

setup_vni_lem_example :
    (ns : ℕ) × ((slots.ns_from_name (codes "router") state).0 ≡ ok ns)
    × IsSetUp view demo_net params ns after
unfolding setup_vni setup_veth setup_router_side assign_ip_to_interface slots demo_net bridge_name
    vxlan_name itoa in_namespace setup_vrf setup_bridge setup_vxlan eq_text
    find_free_routing_table_id find_from taken_tables vtep_address
setup_vni_lem_example =
    setup_vni_lem slots demo_net view slots-Kernel slots-AddKeeps params state after
      (red-IsPlain (pos 100)).0 (red-IsPlain (pos 100)).1 refl
