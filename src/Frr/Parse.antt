-- ===== src/Frr/Parse.antt =====
-- internal/frr/parse.go: what vtysh prints of neighbors, routes, BFD peers and VRFs. The texts are
-- decoded by encoding/json, which is a parameter; a Go map is the list of its entries, with
-- distinct keys, in the order in which `range` visits them.
pub mod Routes
pub mod Vrfs
pub mod Neighbours
use pierre.Base.{
  ℕ, zero, suc, ◌+◌, ◌%◌, ◌^◌, ◌==◌, ltb, ℤ, Bool, true, false, not, ◌&&◌, ◌||◌, Option, none, some,
  List, [], ◌∷◌, ◌++◌, Text, codes, eq_text, Error, errorf, wrap, Result, ok, err, ◌>>=◌, wrapping,
  traverse, if◌then◌else◌, map,
}
use pierre.Base.Decimal.{itoa}
use pierre.Net.{Net, Ip, IpNet, ip_equal, is_v4}

pub record MessageStats : Type 0 where
  pub opens_sent : ℤ
  pub opens_received : ℤ
  pub notifications_sent : ℤ
  pub updates_sent : ℤ
  pub updates_received : ℤ
  pub keepalives_sent : ℤ
  pub keepalives_received : ℤ
  pub route_refresh_sent : ℤ
  pub total_sent : ℤ
  pub total_received : ℤ

-- The two counters, as the bit patterns of their 64-bit ints.
pub record AddressFamilyInfo : Type 0 where
  pub sent_prefix_counter : ℕ
  pub accepted_prefix_counter : ℕ

-- FRRNeighbor
pub record FrrNeighbor : Type 0 where
  pub remote_as : ℤ
  pub local_as : ℤ
  pub remote_router_id : Text
  pub bgp_version : ℤ
  pub bgp_state : Text
  pub port_foreign : ℤ
  pub msg_stats : MessageStats
  pub vrf_name : Text
  pub address_family_info : List (Text × AddressFamilyInfo)

pub record Neighbor : Type 0 where
  pub ip : Ip
  pub vrf : Text
  pub connected : Bool
  pub local_as : Text
  pub remote_as : Text
  pub prefix_sent : ℕ
  pub prefix_received : ℕ
  pub port : ℤ
  pub remote_router_id : Text
  pub msg_stats : MessageStats

abbrev pub bgp_connected : Text
bgp_connected = codes "Established"

-- The sum of a counter, which wraps around as an int does.
unfoldable pub sum_counter : (AddressFamilyInfo → ℕ) → ℕ → List (Text × AddressFamilyInfo) → ℕ
sum_counter f acc [] = acc
sum_counter f acc ((_, s) ∷ rest) = sum_counter f ((acc + f s) % 2 ^ 64) rest

module _ (net : Net) where
  -- The body of the loops of ParseNeighbour and ParseNeighbours.
  unfoldable pub to_neighbor : Text × FrrNeighbor → Result Neighbor
  unfolding sum_counter itoa
  to_neighbor (k, n) = elim (net.parse_ip k) [
    | none ↦ err (errorf "failed to parse as ip")
    | some ip ↦ ok (record {
      ip = ip;
      vrf = [];
      connected = eq_text n.bgp_state bgp_connected;
      local_as = itoa n.local_as;
      remote_as = itoa n.remote_as;
      prefix_sent = sum_counter (λ s. s.sent_prefix_counter) 0 n.address_family_info;
      prefix_received = sum_counter (λ s. s.accepted_prefix_counter) 0 n.address_family_info;
      port = n.port_foreign;
      remote_router_id = n.remote_router_id;
      msg_stats = n.msg_stats;
    })
  ]

  only_neighbor : List (Text × FrrNeighbor) → Result Neighbor
  unfolding to_neighbor
  only_neighbor [] = err (errorf "no peers were returned")
  only_neighbor (kn ∷ []) = to_neighbor kn
  only_neighbor (kn ∷ kn' ∷ rest) = err (errorf "more than one peer were returned")

  unfoldable pub parse_neighbour :
      (Text → Result (List (Text × FrrNeighbor))) → Text → Result Neighbor
  unfolding only_neighbor
  parse_neighbour unmarshal vtysh_res = do
    res ← wrapping "failed to parse vtysh response" (unmarshal vtysh_res)
    only_neighbor res

  unfoldable pub parse_neighbours :
      (Text → Result (List (Text × FrrNeighbor))) → Text → Result (List Neighbor)
  unfolding to_neighbor
  parse_neighbours unmarshal vtysh_res = do
    to_parse ← wrapping "failed to parse vtysh response" (unmarshal vtysh_res)
    traverse to_neighbor to_parse

pub record Nexthop : Type 0 where
  pub ip : Text
  pub scope : Text

-- FRRRoute
pub record FrrRoute : Type 0 where
  pub valid : Bool
  pub peer_id : Text
  pub local_pref : ℕ  -- uint32
  pub origin : Text
  pub nexthops : List Nexthop

pub record Route : Type 0 where
  pub destination : IpNet
  pub next_hops : List Ip
  pub local_pref : ℕ
  pub origin : Text

unfoldable pub known : List Ip → Ip → Bool
known [] ip = false
known (current ∷ rest) ip = ip_equal ip current || known rest ip

-- The next hops after one more: link-local IPv6 addresses and known ones are left out.
unfoldable pub add_hop : List Ip → Ip → Text → List Ip
unfolding known
add_hop hops ip scope =
    if not (is_v4 ip) && eq_text scope (codes "link-local")
    then hops
    else if known hops ip
    then hops
    else hops ++ ip ∷ []

module _ (net : Net) where
  -- The loop over the next hops of a route.
  unfoldable pub add_hops : List Ip → List Nexthop → Result (List Ip)
  unfolding add_hop
  add_hops hops [] = ok hops
  add_hops hops (h ∷ hs) =
      let next = λ (ip : Ip). add_hops (add_hop hops ip h.scope) hs in
      elim (net.parse_ip h.ip) [ none ↦ err (errorf "failed to parse ip") | some ip ↦ next ip ]

  -- The loop over the routes to one prefix: the preference and the origin are those of the last.
  unfoldable pub add_routes : Route → List FrrRoute → Result Route
  unfolding add_hops
  add_routes r [] = ok r
  add_routes r (n ∷ ns) = do
    hops ← add_hops r.next_hops n.nexthops
    add_routes (record r { next_hops = hops; local_pref = n.local_pref; origin = n.origin }) ns

  -- The entry of one prefix.
  unfoldable pub route_entry : Text × List FrrRoute → Result (Text × Route)
  unfolding add_routes
  route_entry (k, frr_routes) = elim (net.parse_cidr k) [
    | none ↦ err (errorf "failed to parse cidr")
    | some (dest_ip, dest) ↦ do
      r ←
          add_routes (record { destination = dest; next_hops = []; local_pref = 0; origin = [] })
            frr_routes
      ok (net.ip_string dest_ip, r)
  ]

  -- `res[destIP.String()] = r`
  unfoldable pub store : List (Text × Route) → Text → Route → List (Text × Route)
  store [] key r = (key, r) ∷ []
  store ((k, q) ∷ m) key r =
      let rest = store m key r in if eq_text k key then (k, r) ∷ m else (k, q) ∷ rest

  unfoldable pub store_all :
      List (Text × Route) → List (Text × List FrrRoute) → Result (List (Text × Route))
  unfolding route_entry store
  store_all m [] = ok m
  store_all m (e ∷ es) = do (key, r) ← route_entry e; store_all (store m key r) es

  unfoldable pub parse_routes :
      (Text → Result (List (Text × List FrrRoute))) → Text → Result (List (Text × Route))
  unfolding store_all
  parse_routes unmarshal vtysh_res = do
    to_parse ← wrapping "failed to parse vtysh response" (unmarshal vtysh_res)
    store_all [] to_parse

-- BFDPeer
pub record BfdPeer : Type 0 where
  pub multihop : Bool
  pub peer : Text
  pub local : Text
  pub vrf : Text
  pub interface : Text
  pub id : ℤ
  pub remote_id : ℤ  -- int64
  pub passive_mode : Bool
  pub status : Text
  pub uptime : ℤ
  pub diagnostic : Text
  pub remote_diagnostic : Text
  pub receive_interval : ℤ
  pub transmit_interval : ℤ
  pub echo_receive_interval : ℤ
  pub echo_transmit_interval : ℤ
  pub detect_multiplier : ℤ
  pub remote_receive_interval : ℤ
  pub remote_transmit_interval : ℤ
  pub remote_echo_interval : ℤ
  pub remote_echo_receive_interval : ℤ
  pub remote_detect_multiplier : ℤ

unfoldable pub parse_bfd_peers : (Text → Result (List BfdPeer)) → Text → Result (List BfdPeer)
parse_bfd_peers unmarshal vtysh_res =
    wrapping "failed to parse vtysh response" (unmarshal vtysh_res)

-- The order of Go strings.
unfoldable pub le_text : Text → Text → Bool
le_text [] t = true
le_text (a ∷ s) [] = false
le_text (a ∷ s) (b ∷ t) = ltb a b || ((a == b) && le_text s t)

unfoldable pub insert_text : Text → List Text → List Text
insert_text x [] = x ∷ []
insert_text x (y ∷ ys) = let rest = insert_text x ys in if le_text x y then x ∷ y ∷ ys else y ∷ rest

-- sort.Strings
unfoldable pub sort_strings : List Text → List Text
sort_strings [] = []
sort_strings (x ∷ xs) = insert_text x (sort_strings xs)

-- The keys of the decoded object, sorted.
unfoldable pub parse_vrfs : (Text → Result (List Text)) → Text → Result (List Text)
parse_vrfs unmarshal vtysh_res = do
  vrfs ← wrapping "parseVRFs: failed to parse vtysh response" (unmarshal vtysh_res)
  ok (sort_strings vrfs)
