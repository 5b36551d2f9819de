-- ===== src/Tests/Addresses.antt =====
-- Addresses, families, timers and names at concrete data.
use pierre.Base.{
  ℕ, ◌+◌, ◌*◌, ◌/◌, ◌^◌, ◌⊎◌, ◌≤◌, ◌≡◌, ◌≢◌, ◌↔◌, refl, none, some, List, [], ◌∷◌, Text, codes, ok,
  err, Error, pos, negsuc, arith, eq_text,
}
use pierre.IpFamily.{dual_stack, unknown, for_addresses}
use pierre.IpFamily.Laws.{IsMixedPair, for_addresses_lem}
use pierre.Ipam.{Veths, veth_ips}
use pierre.Ipam.Bounds.{
  prefix, veth_ips_v4, veth_ips_full, vtep_ip-injective, veth_ips_distinct, veth_ips_v6,
}
use pierre.Conversion.Timers.{second, parse_timers, parse_timers_iff, parse_timers_negative}
use pierre.HostNetwork.Names.{
  vxlan_name, bridge_name, veth_legs_for_vrf, vni_from_vxlan_name, names_injective,
  vni_from_vxlan_name-vxlan_name,
}
use pierre.Net.{Net, v6, net_string}
use pierre.Tests.Demo.{demo_net, demo_net-Lawful, local_base, vtep_base}

abbrev local_pool : Text
local_pool = codes "192.169.10.0/24"

abbrev vtep_pool : Text
vtep_pool = codes "100.65.0.0/24"

veth_ips_v4_example :
    veth_ips demo_net local_pool 3
    ≡ ok (record { host_side = prefix (local_base + 4) 24; container_side = prefix local_base 24 })
unfolding demo_net eq_text
veth_ips_v4_example =
    veth_ips_v4 demo_net demo_net-Lawful local_pool local_base 24 refl 3 (omega arith)

veth_ips_full_example : (e : Error) × (veth_ips demo_net local_pool 255 ≡ err e)
unfolding demo_net eq_text
veth_ips_full_example =
    veth_ips_full demo_net demo_net-Lawful local_pool local_base 24 refl 255 (omega arith)

vtep_ip-injective_example : ◌≡◌ {A = ℕ} 7 7
unfolding demo_net eq_text
vtep_ip-injective_example =
    vtep_ip-injective demo_net demo_net-Lawful vtep_pool vtep_base 24 refl 7 7 (omega arith)
      (omega arith) refl

abbrev legs : ℕ → Veths
legs index = record {
  host_side = prefix (local_base + (index + 1)) 24;
  container_side = prefix local_base 24;
}

veth_ips_distinct_example :
    (prefix (local_base + 1) 24 ≢ prefix local_base 24)
    × (prefix local_base 24 ≡ prefix local_base 24)
    × ((prefix (local_base + 1) 24 ≡ prefix (local_base + 2) 24) ↔ (◌≡◌ {A = ℕ} 0 1))
unfolding demo_net eq_text veth_ips
veth_ips_distinct_example =
    veth_ips_distinct demo_net demo_net-Lawful local_pool local_base 24 refl 0 1 {a = legs 0}
      {b = legs 1} (omega arith) (omega arith) refl refl

-- A pool of IPv6 addresses, and the library on it.
abbrev v6_net : Net
v6_net = record demo_net {
  parse_cidr =
      λ s. some (v6 64, record { ip = v6 64; mask = some (record { ones = 64; bits = 128 }) });
  host = λ n num. ok (v6 (64 + num));
}

veth_ips_v6_example :
    (veths : Veths) × (veth_ips v6_net (codes "2001:db8::/64") 2 ≡ ok veths)
    × (net_string v6_net veths.host_side ≡ codes "<nil>")
    × (net_string v6_net veths.container_side ≡ codes "<nil>")
veth_ips_v6_example =
    veth_ips_v6 v6_net (codes "2001:db8::/64") (v6 64) 64 64 64 67 2 refl refl refl

abbrev pair : List Text
pair = codes "192.168.11.2" ∷ codes "2001:db8::1" ∷ []

for_addresses_lem_example :
    (((for_addresses demo_net pair).0 ≡ unknown) ↔ ((for_addresses demo_net pair).1 ≢ none))
    × (((for_addresses demo_net pair).0 ≡ dual_stack) ↔ IsMixedPair demo_net pair)
for_addresses_lem_example = for_addresses_lem demo_net pair

parse_timers_iff_example :
    (parse_timers (some (pos (180 * second))) (some (pos (60 * second))) ≡ ok (some 180, some 60))
    ↔ ((60 * second ≤ 180 * second)
        × ((◌≡◌ {A = ℕ} 180 0) ⊎ (3 ≤ 180))
        × (◌≡◌ {A = ℕ} 180 (180 * second / second))
        × (◌≡◌ {A = ℕ} 60 (60 * second / second)))
parse_timers_iff_example = parse_timers_iff (180 * second) (60 * second) 180 60

parse_timers_negative_example :
    (k : ℕ) × (parse_timers (some (pos 0)) (some (negsuc second)) ≡ ok (some 0, some k))
    × (2 ^ 63 ≤ k)
parse_timers_negative_example = parse_timers_negative second (omega arith) (omega arith)

vni_from_vxlan_name-vxlan_name_example : vni_from_vxlan_name (vxlan_name (pos 100)) ≡ ok (pos 100)
vni_from_vxlan_name-vxlan_name_example = vni_from_vxlan_name-vxlan_name (pos 100) (omega arith)

names_injective_example :
    ((bridge_name (pos 100) ≡ bridge_name (pos 200)) ↔ (pos 100 ≡ pos 200))
    × ((vxlan_name (pos 100) ≡ vxlan_name (pos 200)) ↔ (pos 100 ≡ pos 200))
    × (((veth_legs_for_vrf (codes "red")).0 ≡ (veth_legs_for_vrf (codes "blue")).0)
        ↔ (codes "red" ≡ codes "blue"))
    × (((veth_legs_for_vrf (codes "red")).1 ≡ (veth_legs_for_vrf (codes "blue")).1)
        ↔ (codes "red" ≡ codes "blue"))
    × ((veth_legs_for_vrf (codes "red")).0 ≢ (veth_legs_for_vrf (codes "blue")).1)
names_injective_example =
    names_injective (pos 100) (pos 200) (codes "red") (codes "blue") (omega arith) (omega arith)
