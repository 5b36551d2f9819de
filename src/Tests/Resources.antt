-- ===== src/Tests/Resources.antt =====
-- The conversions, the parsers, the reload of FRR and the pod's namespace at concrete data.
use mathlib.Core.List.Permᴰ.{Permᴰ}
use pierre.Base.{
  ℕ, ◌+◌, ◌*◌, ◌≡◌, ◌≢◌, ◌↔◌, refl, All₂, none, some, List, [], ◌∷◌, ◌++◌, Text, codes, traverse,
  ok, err, errorf, pos, arith, true, false, eq_text,
}
use pierre.Base.Exec.{Exec}
use pierre.Net.{Ip, v4}
use pierre.IpFamily.{ipv4, for_addresses}
use pierre.Ipam.{vtep_ip, veth_ips}
use pierre.Api.{Neighbor, Underlay, Vni}
use pierre.Frr.Config.{Config}
use pierre.Base.Decimal.{itoa}
use pierre.Frr.Parse.{FrrRoute, Nexthop, Route, route_entry, parse_routes, parse_vrfs}
use pierre.Frr.Parse.Routes.{IsDistinct, route_entry-IsDistinct, parse_routes_collision}
use pierre.Frr.Parse.Vrfs.{IsSorted, parse_vrfs_lem}
use pierre.HostNetwork.Params.{UnderlayParams, VniParams}
use pierre.Conversion.Timers.{second, parse_timers}
use pierre.Conversion.Frr.{api_to_frr, neighbor_to_frr, vni_to_frr, local_neighbor, neighbor_name}
use pierre.Conversion.Host.{api_to_host_config}
use pierre.Conversion.Agreement.{
  SameVni, NeighborFor, api_to_host_config_agrees, api_to_frr_neighbors,
}
use pierre.FrrConfig.{update, test, reload, reload_action, reload_handler, method_post, status_ok}
use pierre.FrrConfig.Laws.{reload_handler_lem}
use pierre.Pods.{Namespace, network_namespace_of}
use pierre.Pods.Paths.{network_namespace_of_first}
use pierre.Tests.Demo.{demo_net, local_base, vtep_base, ten_base, network}

abbrev neighbor : Neighbor
neighbor = record {
  asn = 64512;
  address = codes "192.168.11.2";
  port = none;
  password = [];
  password_secret = [];
  hold_time = some (pos (180 * second));
  keepalive_time = some (pos (60 * second));
  connect_time = none;
  ebgp_multi_hop = false;
  bfd_profile = [];
}

abbrev pub underlay : Underlay
underlay = record {
  name = codes "underlay";
  spec = record {
    asn = 64514;
    vtep_cidr = codes "100.65.0.0/24";
    neighbors = neighbor ∷ [];
    nic = codes "toswitch";
  };
}

abbrev pub red : Vni
red = record {
  name = codes "red";
  spec = record {
    asn = 64514;
    vrf = codes "red";
    local_asn = 64515;
    vni = 100;
    local_cidr = codes "192.169.10.0/24";
    vxlan_port = 4789;
  };
}

-- The address of the node's leg.
abbrev leg : Text
leg = demo_net.ip_string (v4 (local_base + 2))

abbrev pub config : Config
config = record {
  loglevel = codes "info";
  hostname = [];
  underlay = record {
    my_asn = 64514;
    vtep = demo_net.ip_string (v4 (vtep_base + 1)) ++ codes "/32";
    neighbors =
        record {
          name = neighbor_name neighbor;
          asn = 64512;
          addr = codes "192.168.11.2";
          port = none;
          hold_time = some 180;
          keepalive_time = some 60;
          connect_time = none;
          password = [];
          bfd_profile = [];
          ebgp_multi_hop = false;
          ip_family = some ipv4;
        }
        ∷ [];
  };
  vnis =
      record {
        asn = 64514;
        to_advertise = (leg ++ codes "/32") ∷ [];
        local_neighbor = some (local_neighbor leg 64515);
        vrf = codes "red";
        vni = pos 100;
      }
      ∷ [];
}

pub converted : api_to_frr demo_net 1 (underlay ∷ []) (red ∷ []) (codes "info") ≡ ok config
unfolding demo_net eq_text api_to_frr vtep_ip veth_ips neighbor_to_frr vni_to_frr for_addresses
    parse_timers traverse
converted = refl

api_to_host_config_agrees_example :
    (params : UnderlayParams) × (vni_params : List VniParams) × (api_to_host_config demo_net 1
        (codes "ns")
        (underlay ∷ [])
        (red ∷ [])
      ≡ ok (params, vni_params))
    × (params.vtep_ip ≡ config.underlay.vtep)
    × (params.target_ns ≡ codes "ns")
    × All₂ (SameVni demo_net config.underlay.vtep) config.vnis vni_params
api_to_host_config_agrees_example =
    api_to_host_config_agrees demo_net 1 (codes "ns") (underlay ∷ []) (red ∷ []) (codes "info")
      config converted

api_to_frr_neighbors_example :
    (u : Underlay) × (underlay ∷ [] ≡ u ∷ [])
    × (red ∷ [] ≢ [])
    × All₂ (NeighborFor demo_net) u.spec.neighbors config.underlay.neighbors
    × (config.underlay.my_asn ≡ u.spec.asn)
    × (config.loglevel ≡ codes "info")
api_to_frr_neighbors_example =
    api_to_frr_neighbors demo_net 1 (underlay ∷ []) (red ∷ []) (codes "info") config converted

abbrev hop : Nexthop
hop = record { ip = codes "192.168.11.2"; scope = codes "global" }

abbrev frr_route : FrrRoute
frr_route = record {
  valid = true;
  peer_id = codes "192.168.11.2";
  local_pref = 100;
  origin = codes "IGP";
  nexthops = hop ∷ hop ∷ [];
}

abbrev route : ℕ → Route
route ones = record {
  destination = network ten_base ones;
  next_hops = v4 3232238338 ∷ [];
  local_pref = 100;
  origin = codes "IGP";
}

abbrev ten : Text
ten = demo_net.ip_string (v4 ten_base)

entry_24 : route_entry demo_net (codes "10.0.0.0/24", frr_route ∷ []) ≡ ok (ten, route 24)
unfolding demo_net eq_text route_entry
entry_24 = refl

route_entry-IsDistinct_example :
    IsDistinct (v4 3232238338 ∷ [])
    × (ip : Ip) × (demo_net.parse_cidr (codes "10.0.0.0/24") ≡ some (ip, network ten_base 24))
    × (ten ≡ demo_net.ip_string ip)
route_entry-IsDistinct_example =
    route_entry-IsDistinct demo_net (codes "10.0.0.0/24") ten (frr_route ∷ []) (route 24) entry_24

abbrev two_prefixes : List (Text × List FrrRoute)
two_prefixes = (codes "10.0.0.0/16", frr_route ∷ []) ∷ (codes "10.0.0.0/24", frr_route ∷ []) ∷ []

parse_routes_collision_example :
    (r : Route) × (◌≡◌ {A = List (Text × Route)} ((ten, route 24) ∷ []) ((ten, r) ∷ []))
    × (r.destination ≡ network ten_base 24)
unfolding demo_net eq_text parse_routes route_entry itoa
parse_routes_collision_example =
    parse_routes_collision demo_net (λ t. ok two_prefixes) [] (codes "10.0.0.0/16", frr_route ∷ [])
      (codes "10.0.0.0/24", frr_route ∷ []) (v4 ten_base) (network ten_base 16)
      (network ten_base 24) ((ten, route 24) ∷ []) refl refl refl refl

abbrev vrfs : List Text
vrfs = codes "red" ∷ codes "blue" ∷ []

abbrev vrfs' : List Text
vrfs' = codes "blue" ∷ codes "red" ∷ []

parse_vrfs_lem_example :
    (result : List Text) × (parse_vrfs (λ t. ok vrfs) [] ≡ ok result)
    × IsSorted result
    × Permᴰ result vrfs
    × (parse_vrfs (λ t. ok vrfs') [] ≡ ok result)
parse_vrfs_lem_example =
    parse_vrfs_lem (λ t. ok vrfs) (λ t. ok vrfs') [] vrfs vrfs' refl refl (Permᴰ.swap refl refl)

-- A program that succeeds, and one that fails; the state counts the runs.
abbrev succeeds : Text → List Text → Exec ℕ Unit
succeeds name args runs = (ok tt, runs + 1)

abbrev fails : Text → List Text → Exec ℕ Unit
fails name args runs = (err (errorf "exit status 1"), runs + 1)

abbrev file : Text
file = codes "/etc/frr/frr.conf"

reload_handler_lem_example :
    ((reload_handler (update succeeds file) method_post 0).0 ≡ status_ok) ↔ (
      (method_post ≡ method_post)
      × ((reload_action succeeds file test 0).0 ≡ ok tt)
      × ((reload_action succeeds file reload (reload_action succeeds file test 0).1).0 ≡ ok tt))
reload_handler_lem_example = reload_handler_lem succeeds file method_post 0

abbrev written : Text → Text → ℕ → Exec ℕ Unit
written path text mode s = (ok tt, s + 1)

abbrev posted : Text → Exec ℕ ℕ
posted url s = (ok 200, s + 1)

abbrev mount_namespace : Namespace
mount_namespace = record { type = codes "mount"; path = [] }

abbrev net_namespace : Namespace
net_namespace = record { type = codes "network"; path = codes "/run/netns/ab" }

network_namespace_of_first_example :
    network_namespace_of (mount_namespace ∷ net_namespace ∷ []) ≡ codes "ab"
unfolding eq_text
network_namespace_of_first_example =
    network_namespace_of_first (mount_namespace ∷ []) [] net_namespace (codes "/run/netns")
      (codes "ab") (refl, tt) refl refl (ground arith)
