-- ===== src/Tests/Interfaces.antt =====
-- The host's interfaces on a machine with a few links.
use pierre.Base.{
  ℕ, ◌<◌, ◌≤◌, ◌≡◌, ◌≢◌, refl, In, some, List, [], ◌∷◌, codes, Result, ok, pos, arith, false,
  eq_text, inl, inr, keep, ℤ,
}
use pierre.Net.{v4}
use pierre.HostNetwork.Params.{VniParams}
use pierre.HostNetwork.Netlink.{Link, dummy, bridge, vrf, vxlan, VxlanAttrs, link_type}
use pierre.HostNetwork.Names.{vxlan_name, vni_from_vxlan_name, vni_from_vxlan_name-vxlan_name}
use pierre.HostNetwork.Vrf.{
  max_uint32, vrf_table, find_free_routing_table_id, create_vrf, find_from, taken_tables,
}
use pierre.HostNetwork.Vrf.Tables.{find_free_routing_table_id_lem, create_vrf_lem}
use pierre.HostNetwork.Cleanup.{clear_links}
use pierre.HostNetwork.Cleanup.Stale.{stale, delete_all, clear_links_lem}
use pierre.Tests.Demo.{vtep_base}
use pierre.Tests.Machine.{Machine, machine, machine-AddKeeps}

abbrev params : VniParams
params = record {
  vrf = codes "red";
  target_ns = codes "router";
  vtep_ip = codes "100.65.0.0/24";
  veth_host_ip = codes "192.169.10.1/24";
  veth_ns_ip = codes "192.169.10.0/24";
  vni = pos 100;
  vxlan_port = pos 4789;
}

abbrev loopback : Link
loopback = record { index = 1; name = codes "lound"; master_index = 0; kind = dummy }

abbrev vrf_link : ℕ → ℕ → Link
vrf_link index table = record {
  index = index;
  name = codes "red";
  master_index = 0;
  kind = vrf table;
}

abbrev bridge_link : Link
bridge_link = record { index = 4; name = codes "br100"; master_index = 2; kind = bridge }

abbrev attrs : VxlanAttrs
attrs = record {
  vxlan_id = pos 100;
  port = pos 4789;
  learning = false;
  src_addr = some (v4 vtep_base);
  vtep_dev_index = 1;
}

abbrev vxlan_link : ℤ → Link
vxlan_link vni = record { index = 5; name = vxlan_name vni; master_index = 4; kind = vxlan attrs }

abbrev links : List Link
links = loopback ∷ vrf_link 2 1 ∷ bridge_link ∷ vxlan_link (pos 100) ∷ []

abbrev state : Machine
state = record { links = links; current = 7 }

find_free_routing_table_id_lem_example :
    (r : ℕ) × (find_free_routing_table_id (vrf_link 2 1 ∷ vrf_link 3 3 ∷ []) ≡ ok r)
    × (1 ≤ r)
    × (r < max_uint32)
    × ((l : Link) → In l (vrf_link 2 1 ∷ vrf_link 3 3 ∷ []) → vrf_table l.kind ≢ some r)
    × ((t : ℕ)
        → 1 ≤ t
        → t < r
        → (l : Link) × In l (vrf_link 2 1 ∷ vrf_link 3 3 ∷ []) × (vrf_table l.kind ≡ some t))
find_free_routing_table_id_lem_example =
    find_free_routing_table_id_lem (vrf_link 2 1 ∷ vrf_link 3 3 ∷ []) (ground arith)

-- A machine with a VRF, and the VRF that is added to it.
abbrev one_vrf : Machine
one_vrf = record { links = vrf_link 1 1 ∷ []; current = 7 }

abbrev blue : Link
blue = record { index = 2; name = codes "blue"; master_index = 0; kind = vrf 2 }

create_vrf_lem_example :
    (ls : List Link) × (table : ℕ) × (◌≡◌ {A = Result (List Link)} (ok (vrf_link 1 1 ∷ [])) (ok ls))
    × (codes "blue" ≡ codes "blue")
    × (some 2 ≡ some table)
    × (1 ≤ table)
    × ((k : Link) → In k ls → vrf_table k.kind ≢ some table)
    × ((i : ℕ) → 1 ≤ i → i < table → (k : Link) × In k ls × (vrf_table k.kind ≡ some i))
unfolding machine create_vrf find_free_routing_table_id find_from taken_tables
create_vrf_lem_example =
    create_vrf_lem machine machine-AddKeeps (codes "blue") one_vrf
      (record one_vrf { links = vrf_link 1 1 ∷ blue ∷ [] }) blue refl

-- The machine without the VXLAN, and what is added to it.
abbrev no_vxlan : Machine
no_vxlan = record { links = loopback ∷ bridge_link ∷ []; current = 7 }

abbrev added_vxlan : Link
added_vxlan = record {
  index = 3;
  name = vxlan_name (pos 100);
  master_index = 4;
  kind = vxlan attrs;
}

clear_links_lem_example :
    clear_links machine
      (codes "vxlan")
      (pos 100 ∷ [])
      (loopback ∷ vxlan_link (pos 200) ∷ [])
      vni_from_vxlan_name
      state
    ≡ delete_all machine "failed to delete link"
        (keep
          (stale (codes "vxlan") (pos 100 ∷ []) vni_from_vxlan_name)
          (loopback ∷ vxlan_link (pos 200) ∷ []))
        state
unfolding eq_text link_type
clear_links_lem_example =
    clear_links_lem machine (codes "vxlan") (pos 100 ∷ []) vni_from_vxlan_name
      (loopback ∷ vxlan_link (pos 200) ∷ [])
      (inl refl, (inr (pos 200, vni_from_vxlan_name-vxlan_name (pos 200) (omega arith)), tt)) state
