-- ===== src/HostNetwork/Bridge.antt =====
-- internal/hostnetwork/bridge.go: the bridge of a VNI.
use pierre.Base.{
  ℕ, Bool, true, false, Option, none, some, Text, Result, ok, err, is_not_found, if◌then◌else◌,
}
use pierre.Base.Exec.{Exec, pure, attempt, annotate, replace, ◌>>=◌, ◌>>◌}
use pierre.HostNetwork.Params.{VniParams}
use pierre.HostNetwork.Netlink.{Netlink, Link, Kind, bridge, new_link}
use pierre.HostNetwork.Properties.{addr_gen_mode_none}
use pierre.HostNetwork.Names.{bridge_name}

-- `link.(*netlink.Bridge)` succeeds.
abbrev pub is_bridge : Kind → Bool
is_bridge bridge = true
is_bridge _ = false

module _ {State Ns : Type 0} (nl : Netlink State Ns) where
  open nl use {link_by_name, link_add, link_del, link_set_up}

  unfoldable pub create_bridge : Text → ℕ → Exec State Link
  create_bridge name vrf_index =
      replace "could not create bridge" (link_add (new_link name vrf_index bridge))

  unfoldable pub found_or_created : Text → ℕ → Result Link → Exec State (Option Link)
  unfolding create_bridge
  found_or_created name vrf_index (ok l) = pure (some l)
  found_or_created name vrf_index (err e) =
      if is_not_found e
      then (do l ← annotate "failed to create bridge" (create_bridge name vrf_index); pure (some l))
      else pure none

  unfoldable pub replace_bridge : Text → ℕ → Option Link → Exec State Link
  unfolding create_bridge
  replace_bridge name vrf_index link = do
    annotate "failed to delete link" (link_del link)
    annotate "failed to create bridge" (create_bridge name vrf_index)

  unfoldable pub checked : Text → ℕ → Option Link → Exec State Link
  unfolding replace_bridge
  checked name vrf_index none = replace_bridge name vrf_index none
  checked name vrf_index (some l) =
      if is_bridge l.kind then pure l else replace_bridge name vrf_index (some l)

  -- setupBridge up to the settings of the bridge.
  unfoldable pub ensure_bridge : Text → ℕ → Exec State Link
  unfolding found_or_created checked
  ensure_bridge name vrf_index = do
    r ← attempt (link_by_name name)
    link ← found_or_created name vrf_index r
    checked name vrf_index link

  unfoldable pub setup_bridge : VniParams → Link → Exec State Link
  unfolding ensure_bridge addr_gen_mode_none
  setup_bridge params vrf_link = do
    l ← ensure_bridge (bridge_name params.vni) vrf_link.index
    annotate "failed to set addr_gen_mode to 1" (addr_gen_mode_none nl l)
    replace "could not set link up for bridge" (link_set_up (some l))
    pure l
