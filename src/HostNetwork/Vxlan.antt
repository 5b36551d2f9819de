-- ===== src/HostNetwork/Vxlan.antt =====
-- internal/hostnetwork/vxlan.go: the VXLAN interface of a VNI.
pub mod Configured
use pierre.Base.{
  ℕ, ℤ, eq_int, ◌==◌, Bool, true, false, not, ◌&&◌, ◌||◌, Option, none, some, List, [], ◌∷◌, ◌++◌,
  Text, codes, eq_text, contains, has_prefix, Error, errorf, wrap, Result, ok, err, is_exist,
  is_not_found, if◌then◌else◌,
}
use pierre.Base.Exec.{Exec, pure, raise, lift, attempt, annotate, replace, each, ◌>>=◌, ◌>>◌}
use pierre.Net.{Net, Ip, IpNet, Mask, cidr_mask, mask_size, ip_equal}
use pierre.HostNetwork.Params.{UnderlayParams, VniParams}
use pierre.HostNetwork.Netlink.{
  Netlink, Link, Kind, dummy, bridge, veth, vrf, vxlan, VxlanAttrs, Address, Route, new_link,
  link_type,
}
use pierre.HostNetwork.Namespace.{in_namespace}
use pierre.HostNetwork.Properties.{
  assign_ip_to_interface, interface_has_ip, addr_gen_mode_none, set_neigh_suppression,
  move_nic_to_namespace,
}
use pierre.HostNetwork.Names.{
  vxlan_name, bridge_name, veth_legs_for_vrf, vrf_for_host_leg, vni_from_vxlan_name,
  vni_from_bridge_name, host_veth_prefix,
}
use pierre.HostNetwork.Vrf.{setup_vrf, vrf_table}

-- underlay.go, UnderlayLoopback
abbrev pub underlay_loopback : Text
underlay_loopback = codes "lound"

-- `link.(*netlink.Vxlan)`
abbrev pub vxlan_attrs : Kind → Option VxlanAttrs
vxlan_attrs (vxlan a) = some a
vxlan_attrs _ = none

-- IP.Equal on addresses that may be nil.
abbrev pub same_address : Option Ip → Option Ip → Bool
same_address none none = true
same_address (some a) (some b) = ip_equal a b
same_address _ _ = false

module _ (net : Net) where
  -- `vtepIP, _, _ := net.ParseCIDR(params.VTEPIP)`
  unfoldable pub vtep_address : VniParams → Option Ip
  vtep_address params = elim (net.parse_cidr params.vtep_ip) [
    | none ↦ none
    | some (ip, _) ↦ some ip
  ]

  unfoldable pub check_vxlan_configured : Link → VxlanAttrs → ℕ → ℕ → VniParams → Result (Unit {0})
  check_vxlan_configured link a bridge_index loopback_index params =
      if not (link.master_index == bridge_index)
      then err (errorf "master index is not bridge index")
      else if not (eq_int a.vxlan_id params.vni)
      then err (errorf "vxlanid is not vni")
      else if not (eq_int a.port params.vxlan_port)
      then err (errorf "port is not one coming from params")
      else if a.learning
      then err (errorf "learning is enabled")
      else if not (same_address a.src_addr (vtep_address params))
      then err (errorf "src addr is not one coming from params")
      else if not (a.vtep_dev_index == loopback_index)
      then err (errorf "vtep dev index is not loopback index")
      else ok tt

  -- The link that createVXLan asks for.
  unfoldable pub wanted_attrs : VniParams → ℕ → VxlanAttrs
  wanted_attrs params loopback_index = record {
    vxlan_id = params.vni;
    port = params.vxlan_port;
    learning = false;
    src_addr = vtep_address params;
    vtep_dev_index = loopback_index;
  }

module _ {State Ns : Type 0} (nl : Netlink State Ns) (net : Net) where
  open nl use {link_by_name, link_add, link_del, link_set_up}

  unfoldable pub create_vxlan : VniParams → Link → Exec State Link
  unfolding wanted_attrs
  create_vxlan params bridge_link = do
    loopback ← annotate "failed to get loopback by name" (link_by_name underlay_loopback)
    annotate "failed to create vxlan" (
        link_add (
          new_link (vxlan_name params.vni) bridge_link.index
            (vxlan (wanted_attrs net params loopback.index))))

  unfoldable pub found_or_created : VniParams → Link → Result Link → Exec State (Option Link)
  unfolding create_vxlan
  found_or_created params bridge_link (ok l) = pure (some l)
  found_or_created params bridge_link (err e) =
      if is_not_found e
      then (do
        l ← annotate "failed to create vxlan" (create_vxlan params bridge_link)
        pure (some l))
      else pure none

  unfoldable pub replace_vxlan : VniParams → Link → Option Link → Exec State Link
  unfolding create_vxlan
  replace_vxlan params bridge_link link = do
    annotate "failed to delete link" (link_del link)
    annotate "failed to create vxlan" (create_vxlan params bridge_link)

  -- The type assertion. What is no VXLAN is replaced.
  unfoldable pub typed : VniParams → Link → Option Link → Exec State Link
  unfolding replace_vxlan
  typed params bridge_link none = replace_vxlan params bridge_link none
  typed params bridge_link (some l) = elim (vxlan_attrs l.kind) [
    | some _ ↦ pure l
    | none ↦ replace_vxlan params bridge_link (some l)
  ]

  unfoldable pub check : Link → ℕ → ℕ → VniParams → Result (Unit {0})
  unfolding check_vxlan_configured
  check l bridge_index loopback_index params = elim (vxlan_attrs l.kind) [
    | none ↦ err (errorf "not a vxlan")
    | some a ↦ check_vxlan_configured net l a bridge_index loopback_index params
  ]

  -- A VXLAN with other settings is replaced; it is `link`, as it was found, that is deleted.
  unfoldable pub kept_or_replaced :
      VniParams → Link → Option Link → Link → Result (Unit {0}) → Exec State Link
  unfolding replace_vxlan
  kept_or_replaced params bridge_link link l (ok _) = pure l
  kept_or_replaced params bridge_link link l (err _) = replace_vxlan params bridge_link link

  -- setupVXLan up to the settings of the interface.
  unfoldable pub ensure_vxlan : VniParams → Link → Exec State Link
  unfolding found_or_created typed check kept_or_replaced
  ensure_vxlan params bridge_link = do
    loopback ← annotate "failed to get loopback by name" (link_by_name underlay_loopback)
    r ← attempt (link_by_name (vxlan_name params.vni))
    link ← found_or_created params bridge_link r
    l ← typed params bridge_link link
    kept_or_replaced params bridge_link link l (check l bridge_link.index loopback.index params)

  unfoldable pub setup_vxlan : VniParams → Link → Exec State Unit
  unfolding ensure_vxlan addr_gen_mode_none set_neigh_suppression
  setup_vxlan params bridge_link = do
    l ← ensure_vxlan params bridge_link
    annotate "failed to set addr_gen_mode to 1" (addr_gen_mode_none nl l)
    annotate "failed to set neigh suppression" (set_neigh_suppression nl l)
    replace "could not set link up for vxlan" (link_set_up (some l))
