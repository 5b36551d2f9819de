-- ===== src/Tests/Joint.antt =====
-- The interfaces of two VNIs on a machine that has the underlay's interface only.
use pierre.Base.{
  some, none, ℕ, ◌≡◌, refl, [], ◌∷◌, List, codes, ok, pos, arith, eq_text, All, Option, traverse,
  Result, err,
}
use pierre.Base.Decimal.{itoa}
use pierre.Base.Exec.{pure, each}
use pierre.Net.{net_string, Net, Ip, IpNet, v4}
use pierre.Ipam.{vtep_ip, veth_ips}
use pierre.Api.{Vni}
use pierre.HostNetwork.Params.{UnderlayParams, VniParams}
use pierre.HostNetwork.Netlink.{dummy}
use pierre.HostNetwork.Names.{bridge_name, vxlan_name}
use pierre.HostNetwork.Vni.{setup_vni, setup_router_side}
use pierre.HostNetwork.Veth.{setup_veth}
use pierre.HostNetwork.Underlay.{setup_underlay}
use pierre.HostNetwork.Properties.{assign_ip_to_interface, interface_has_ip}
use pierre.HostNetwork.Namespace.{in_namespace}
use pierre.HostNetwork.Vrf.{setup_vrf, find_free_routing_table_id, find_from, taken_tables}
use pierre.HostNetwork.Bridge.{setup_bridge}
use pierre.HostNetwork.Vxlan.{setup_vxlan, vtep_address}
use pierre.HostNetwork.Joint.{IsUp}
use pierre.Conversion.Host.{api_to_host_config}
use pierre.Controller.Reconcile.{Client, World, setup_interfaces}
use pierre.Controller.Reconcile.Interfaces.{IsDistinct, setup_interfaces_lem}
use pierre.Tests.Demo.{demo_net, network}
use pierre.Tests.Resources.{underlay, red}
use pierre.Tests.Plain.{red-IsPlain, blue-IsPlain, red_blue}
use pierre.Tests.Slots.{
  Slots, slots, view, add, slots-AddKeeps, slots-Kernel, slots-Elsewhere, slots-NsLaws,
}

abbrev pub blue : Vni
blue = record red { name = codes "blue"; spec = record red.spec { vrf = codes "blue"; vni = 200 } }

-- Every other text is some address.
abbrev any_cidr : Option (Ip × IpNet) → Option (Ip × IpNet)
any_cidr none = some (v4 0, network 0 32)
any_cidr (some p) = some p

abbrev pub net : Net
net = record demo_net { parse_cidr = λ s. any_cidr (demo_net.parse_cidr s) }

abbrev no_client : Client Slots
no_client = record {
  list_nodes = pure [];
  list_router_pods = λ t. pure [];
  list_underlays = pure [];
  list_vnis = pure [];
}

abbrev pub start : Slots
start = record {
  links = record { index = 0; name = codes "toswitch"; master_index = 0; kind = dummy } ∷ [];
  current = 7;
}

abbrev pub world : World Slots ℕ
world = record {
  client = no_client;
  runtime = record {
    list_pod_sandbox = λ uid. pure none;
    pod_sandbox_status = λ id. pure none;
    unmarshal_namespaces = λ t. ok [];
  };
  netlink = slots;
  net = net;
  sort_slice = λ less ns. ns;
  os_hostname = ok (codes "router");
  write_file = λ path text mode. pure tt;
  post = λ url. pure 200;
}

abbrev got : Result (UnderlayParams × List VniParams) → UnderlayParams × List VniParams
got (ok p) = p
got (err e) = (record { main_nic = []; vtep_ip = []; target_ns = [] }, [])

abbrev params : UnderlayParams × List VniParams
params = got (api_to_host_config net 1 (codes "router") (underlay ∷ []) (red ∷ blue ∷ []))

pub resources-IsDistinct : IsDistinct (red ∷ blue ∷ [])
resources-IsDistinct =
    (red-IsPlain, omega arith, ((red_blue, omega arith), tt), (blue-IsPlain, omega arith, tt, tt))

pub named : (s : Slots) (n : ℕ) → (slots.ns_from_name (codes "router") s).0 ≡ ok n → n ≡ 1
unfolding slots
named s n h = ground arith

pub back : (s : Slots) → (slots.set_ns 7 s).0 ≡ ok tt
unfolding slots
back s = refl

abbrev after : Slots
after = (setup_interfaces world params start).1

setup_interfaces_lem_example :
    All (λ (x : Vni). IsUp view 1 x.spec.vrf (pos x.spec.vni) after) (red ∷ blue ∷ [])
unfolding setup_interfaces setup_vni setup_veth setup_router_side assign_ip_to_interface slots
    demo_net bridge_name vxlan_name itoa in_namespace setup_vrf setup_bridge setup_vxlan eq_text
    find_free_routing_table_id find_from taken_tables vtep_address setup_underlay each add
    api_to_host_config vtep_ip veth_ips traverse interface_has_ip view net_string
setup_interfaces_lem_example =
    setup_interfaces_lem world view slots-Kernel slots-AddKeeps slots-Elsewhere slots-NsLaws 7 1
      (omega arith) back (codes "router") named 1 underlay (red ∷ blue ∷ []) params start after
      resources-IsDistinct refl refl refl
