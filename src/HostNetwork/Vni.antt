-- ===== src/HostNetwork/Vni.antt =====
-- internal/hostnetwork/vni.go, SetupVNI: the interfaces of a VNI on the host and in the router.
use pierre.HostNetwork.Bridge.{setup_bridge}
use pierre.HostNetwork.Vxlan.{setup_vxlan}
use pierre.HostNetwork.Veth.{setup_veth}
use pierre.Base.{Option, some}
use pierre.Base.Exec.{Exec, replace, ◌>>=◌, ◌>>◌}
use pierre.Net.{Net}
use pierre.HostNetwork.Params.{VniParams}
use pierre.HostNetwork.Netlink.{Netlink, Link}
use pierre.HostNetwork.Namespace.{in_namespace}
use pierre.HostNetwork.Properties.{assign_ip_to_interface}
use pierre.HostNetwork.Vrf.{setup_vrf}

module _ {State Ns : Type 0} (nl : Netlink State Ns) (net : Net) where
  open nl use {ns_from_name, link_set_up, link_set_master}

  -- The function that SetupVNI runs in the router's namespace.
  unfoldable pub setup_router_side : VniParams → Option Link → Exec State Unit
  unfolding setup_vrf setup_bridge setup_vxlan assign_ip_to_interface
  setup_router_side params pe_veth = do
    assign_ip_to_interface nl net pe_veth params.veth_ns_ip
    replace "could not set link up" (link_set_up pe_veth)
    vrf_link ← setup_vrf nl params.vrf
    replace "failed to set vrf as master of pe veth" (link_set_master pe_veth vrf_link)
    bridge_link ← setup_bridge nl params vrf_link
    setup_vxlan nl net params bridge_link

  unfoldable pub setup_vni : VniParams → Exec State Unit
  unfolding setup_router_side setup_veth assign_ip_to_interface in_namespace
  setup_vni params = do
    ns ← replace "Failed to get network namespace" (ns_from_name params.target_ns)
    (host_veth, pe_veth) ← setup_veth nl params.vrf ns
    assign_ip_to_interface nl net (some host_veth) params.veth_host_ip
    replace "could not set link up for host leg" (link_set_up (some host_veth))
    in_namespace nl ns (setup_router_side params pe_veth)
