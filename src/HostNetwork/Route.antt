-- ===== src/HostNetwork/Route.antt =====
-- internal/hostnetwork/vni.go: the route to the host's leg (addRouteToHost).
use pierre.Base.{
  ℕ, ◌==◌, Bool, true, false, ◌&&◌, ◌||◌, Option, none, some, List, [], ◌∷◌, Text, errorf, Result,
  ok, err, if◌then◌else◌,
}
use pierre.Base.Exec.{Exec, pure, lift, annotate, ◌>>=◌}
use pierre.Net.{Net, Mask, cidr_mask, mask_size, ip_equal}
use pierre.HostNetwork.Netlink.{Netlink, Link, Route}

-- IPMask.String on both sides of a comparison.
abbrev same_mask : Option Mask → Option Mask → Bool
same_mask none none = true
same_mask (some a) (some b) = (a.ones == b.ones) && (a.bits == b.bits)
same_mask _ _ = false

unfoldable pub same_route : Route → Route → Bool
same_route r to_check =
    ip_equal r.dst.ip to_check.dst.ip
    && same_mask r.dst.mask to_check.dst.mask
    && (r.link_index == to_check.link_index)
    && (r.table == to_check.table)

any_same : List Route → Route → Bool
unfolding same_route
any_same [] to_check = false
any_same (r ∷ rs) to_check = same_route r to_check || any_same rs to_check

module _ (net : Net) where
  -- The table of a VRF and the interface's index are what is read of the two links.
  unfoldable pub host_ip_to_route : ℕ → Text → Link → Result Route
  host_ip_to_route table dst pe_interface = elim (net.parse_cidr dst) [
    | none ↦ err (errorf "failed to parse veth host ip")
    | some (ip, dst_cidr) ↦
        let (_, size) = mask_size dst_cidr.mask in
        ok (record {
          table = table;
          dst = record { ip = ip; mask = cidr_mask size size };
          link_index = pe_interface.index;
        })
  ]

module _ {State Ns : Type 0} (nl : Netlink State Ns) (net : Net) where
  open nl use {route_list_filtered, route_add}

  unfoldable pub check_route_is_present : Route → Exec State Bool
  unfolding any_same
  check_route_is_present to_check = do
    routes ← annotate "failed to list routes" (route_list_filtered to_check)
    pure (any_same routes to_check)

  unfoldable pub add_route_to_host : ℕ → Text → Link → Exec State Unit
  unfolding host_ip_to_route check_route_is_present
  add_route_to_host table dst pe_interface = do
    route ← lift (host_ip_to_route net table dst pe_interface)
    is_present ← check_route_is_present route
    if is_present then pure tt else annotate "failed to add route" (route_add route)
