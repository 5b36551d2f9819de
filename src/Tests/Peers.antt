-- ===== src/Tests/Peers.antt =====
-- Two neighbours, decoded twice, in different orders.
use pierre.Base.{Result, err, ◌≡◌, refl, [], ◌∷◌, List, Text, codes, ok, pos, eq_text, traverse}
use mathlib.Core.List.{Permᴰ}
use pierre.Frr.Parse.{
  MessageStats, AddressFamilyInfo, FrrNeighbor, Neighbor, to_neighbor, parse_neighbours,
}
use pierre.Frr.Parse.Neighbours.{SameObject, parse_neighbours_order}
use pierre.Tests.Demo.{demo_net}

abbrev stats : MessageStats
stats = record {
  opens_sent = pos 1;
  opens_received = pos 1;
  notifications_sent = pos 0;
  updates_sent = pos 7;
  updates_received = pos 5;
  keepalives_sent = pos 100;
  keepalives_received = pos 98;
  route_refresh_sent = pos 0;
  total_sent = pos 108;
  total_received = pos 104;
}

abbrev over_v4 : Text × AddressFamilyInfo
over_v4 = (codes "ipv4Unicast", record { sent_prefix_counter = 3; accepted_prefix_counter = 2 })

abbrev over_evpn : Text × AddressFamilyInfo
over_evpn = (codes "l2VpnEvpn", record { sent_prefix_counter = 8; accepted_prefix_counter = 9 })

abbrev first : List (Text × AddressFamilyInfo) → FrrNeighbor
first families = record {
  remote_as = pos 64512;
  local_as = pos 64514;
  remote_router_id = codes "10.0.0.1";
  bgp_version = pos 4;
  bgp_state = codes "Established";
  port_foreign = pos 179;
  msg_stats = stats;
  vrf_name = codes "default";
  address_family_info = families;
}

abbrev second : FrrNeighbor
second = record (first []) { bgp_state = codes "Active" }

abbrev decoded : List (Text × FrrNeighbor)
decoded =
    (codes "192.168.11.2", first (over_v4 ∷ over_evpn ∷ [])) ∷ (codes "2001:db8::1", second) ∷ []

abbrev decoded_again : List (Text × FrrNeighbor)
decoded_again =
    (codes "2001:db8::1", second) ∷ (codes "192.168.11.2", first (over_evpn ∷ over_v4 ∷ [])) ∷ []

same : SameObject decoded decoded_again
same = record {
  middle =
      (codes "2001:db8::1", second) ∷ (codes "192.168.11.2", first (over_v4 ∷ over_evpn ∷ [])) ∷ [];
  peers = Permᴰ.swap refl refl;
  same = (
    record { key = refl; families = Permᴰ.nil; rest = refl },
    (record { key = refl; families = Permᴰ.swap refl refl; rest = refl }, tt),
  );
}

abbrev values : Result (List Neighbor) → List Neighbor
values (ok ns) = ns
values (err e) = []

abbrev parsed : List Neighbor
parsed = values (parse_neighbours demo_net (λ t. ok decoded) [])

parse_neighbours_order_example :
    (ms : List Neighbor) × (parse_neighbours demo_net (λ t. ok decoded_again) [] ≡ ok ms)
    × Permᴰ parsed ms
unfolding parse_neighbours traverse to_neighbor demo_net eq_text
parse_neighbours_order_example =
    parse_neighbours_order demo_net (λ t. ok decoded) (λ t. ok decoded_again) [] decoded
      decoded_again parsed refl refl same refl
