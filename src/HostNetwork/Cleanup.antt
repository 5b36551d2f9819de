-- ===== src/HostNetwork/Cleanup.antt =====
-- internal/hostnetwork/vni.go, RemoveNonConfiguredVNIs: what belongs to no VNI is deleted.
pub mod Stale
pub mod Run
pub mod Kept
use pierre.Base.{
  ℕ, ℤ, eq_int, ◌==◌, Bool, true, false, not, ◌&&◌, ◌||◌, Option, none, some, List, [], ◌∷◌, ◌++◌,
  Text, codes, eq_text, contains, has_prefix, Error, errorf, wrap, Result, ok, err, is_exist,
  is_not_found, if◌then◌else◌,
}
use pierre.Base.Exec.{Exec, pure, raise, lift, attempt, annotate, replace, each, ◌>>=◌, ◌>>◌}
use pierre.Net.{Net, Ip, IpNet, Mask, cidr_mask, mask_size, ip_equal}
use pierre.HostNetwork.Params.{UnderlayParams, VniParams}
use pierre.HostNetwork.Netlink.{
  Netlink, Link, Kind, dummy, bridge, veth, vrf, vxlan, VxlanAttrs, Address, Route, new_link,
  link_type,
}
use pierre.HostNetwork.Namespace.{in_namespace}
use pierre.HostNetwork.Properties.{
  assign_ip_to_interface, interface_has_ip, addr_gen_mode_none, set_neigh_suppression,
  move_nic_to_namespace,
}
use pierre.HostNetwork.Names.{
  vxlan_name, bridge_name, veth_legs_for_vrf, vrf_for_host_leg, vni_from_vxlan_name,
  vni_from_bridge_name, host_veth_prefix,
}
use pierre.HostNetwork.Vrf.{setup_vrf, vrf_table}

-- Go sets of ints: the keys that were stored.
unfoldable pub contains_int : List ℤ → ℤ → Bool
contains_int [] a = false
contains_int (x ∷ xs) a = eq_int x a || contains_int xs a

-- The keys of the map `vrfs`, and of the map `vnis`.
unfoldable pub vrfs_of : List VniParams → List Text
vrfs_of [] = []
vrfs_of (p ∷ ps) = p.vrf ∷ vrfs_of ps

unfoldable pub vnis_of : List VniParams → List ℤ
vnis_of [] = []
vnis_of (p ∷ ps) = p.vni ∷ vnis_of ps

-- A veth whose name begins as those of the host's legs do.
unfoldable pub is_host_leg : Link → Bool
is_host_leg l = eq_text (link_type l.kind) (codes "veth") && has_prefix l.name host_veth_prefix

module _ {State Ns : Type 0} (nl : Netlink State Ns) where
  open nl use {link_list, link_del}

  -- The body of the loop of clearLinks, for a link of the type.
  unfoldable pub clear_named : Link → Bool → Exec State Unit
  clear_named l configured =
      if configured then pure tt else annotate "failed to delete link" (link_del (some l))

  unfoldable pub clear_link : Text → List ℤ → (Text → Result ℤ) → Link → Exec State Unit
  unfolding clear_named contains_int
  clear_link type vnis vni_from_name l =
      if eq_text (link_type l.kind) type
      then (do
        vni ← annotate "failed to get vni" (lift (vni_from_name l.name))
        clear_named l (contains_int vnis vni))
      else pure tt

  unfoldable pub clear_links : Text → List ℤ → List Link → (Text → Result ℤ) → Exec State Unit
  unfolding clear_link each
  clear_links type vnis links vni_from_name = each (clear_link type vnis vni_from_name) links

  unfoldable pub remove_host_leg : List Text → Link → Exec State Unit
  remove_host_leg vrfs hl =
      if is_host_leg hl
      then (if contains vrfs (vrf_for_host_leg hl.name)
          then pure tt
          else annotate "remove host leg" (link_del (some hl)))
      else pure tt

  unfoldable pub remove_vrf : List Text → Link → Exec State Unit
  remove_vrf vrfs l =
      if eq_text (link_type l.kind) (codes "vrf") && not (contains vrfs l.name)
      then annotate "failed to delete vrf" (link_del (some l))
      else pure tt

  -- The function that runs in the router's namespace.
  unfoldable pub remove_router_side : List Text → List ℤ → Exec State Unit
  unfolding clear_links remove_vrf each
  remove_router_side vrfs vnis = do
    links ← annotate "failed to list links" link_list
    clear_links (codes "vxlan") vnis links vni_from_vxlan_name
    clear_links (codes "bridge") vnis links vni_from_bridge_name
    each (remove_vrf vrfs) links

  unfoldable pub remove_non_configured_vnis : Ns → List VniParams → Exec State Unit
  unfolding remove_host_leg remove_router_side each vrfs_of vnis_of in_namespace
  remove_non_configured_vnis ns params = do
    host_links ← annotate "failed to list links" link_list
    each (remove_host_leg (vrfs_of params)) host_links
    in_namespace nl ns (remove_router_side (vrfs_of params) (vnis_of params))
