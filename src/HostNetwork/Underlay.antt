-- ===== src/HostNetwork/Underlay.antt =====
-- internal/hostnetwork/underlay.go: the loopback with the VTEP address, and the interface that is
-- moved into the router's namespace.
pub mod Nic
pub mod Moves
pub mod Exchange
use pierre.HostNetwork.Vxlan.{underlay_loopback}
use pierre.Base.{
  Option, none, some, List, [], ◌∷◌, Text, codes, eq_text, Result, ok, err, is_not_found,
  if◌then◌else◌,
}
use pierre.Base.Exec.{Exec, pure, lift, attempt, annotate, replace, ◌>>=◌, ◌>>◌}
use pierre.Net.{Net}
use pierre.HostNetwork.Params.{UnderlayParams}
use pierre.HostNetwork.Netlink.{Netlink, Link, dummy, new_link}
use pierre.HostNetwork.Namespace.{in_namespace}
use pierre.HostNetwork.Properties.{assign_ip_to_interface, interface_has_ip, move_nic_to_namespace}

abbrev pub underlay_nic_special_addr : Text
underlay_nic_special_addr = codes "172.16.1.1/32"

module _ {State Ns : Type 0} (nl : Netlink State Ns) (net : Net) where
  open nl use {
    link_by_name, link_list, link_add, link_set_up, parse_addr, addr_list, addr_del, ns_from_name,
    get_ns,
  }

  -- The loop over the links: the name of the first with the special address, or the empty string.
  unfoldable pub special_link : List Link → Exec State Text
  unfolding interface_has_ip
  special_link [] = pure []
  special_link (l ∷ ls) = do
    _ ← attempt (addr_list (some l))
    has_ip ← interface_has_ip nl net (some l) underlay_nic_special_addr
    if has_ip then pure l.name else special_link ls

  unfoldable pub old_underlay_interface : Ns → Exec State Text
  unfolding special_link in_namespace
  old_underlay_interface ns =
      in_namespace nl ns (do links ← replace "failed to list links" link_list; special_link links)

  -- The function that removeUnderlayInterface runs in the router's namespace.
  unfoldable pub give_back : Text → Ns → Exec State Unit
  unfolding move_nic_to_namespace
  give_back old_underlay current_ns = do
    old_link ← annotate "failed to get old underlay by name" (link_by_name old_underlay)
    addr ← annotate "failed to parse special addr" (lift (parse_addr underlay_nic_special_addr))
    annotate "failed to remove special addr" (addr_del (some old_link) addr)
    move_nic_to_namespace nl old_link.name current_ns

  unfoldable pub remove_underlay_interface : Text → Ns → Exec State Unit
  unfolding give_back in_namespace
  remove_underlay_interface old_underlay ns = do
    current_ns ← annotate "failed to get current ns" get_ns
    in_namespace nl ns (give_back old_underlay current_ns)

  -- The function that moveUnderlayNic runs in the router's namespace at the end.
  unfoldable pub mark_underlay : Text → Exec State Unit
  unfolding assign_ip_to_interface
  mark_underlay underlay_nic = do
    underlay ← annotate "failed to get underlay nic by name" (link_by_name underlay_nic)
    assign_ip_to_interface nl net (some underlay) underlay_nic_special_addr
    replace "could not set link up" (link_set_up (some underlay))

  unfoldable pub take_nic : Text → Ns → Exec State Unit
  unfolding mark_underlay move_nic_to_namespace in_namespace
  take_nic underlay_nic ns = do
    move_nic_to_namespace nl underlay_nic ns
    in_namespace nl ns (mark_underlay underlay_nic)

  -- The three cases of moveUnderlayNic, by the interface that has the special address.
  unfoldable pub exchange : Text → Text → Ns → Exec State Unit
  unfolding take_nic remove_underlay_interface
  exchange [] underlay_nic ns = take_nic underlay_nic ns
  exchange (c ∷ old) underlay_nic ns =
      if eq_text (c ∷ old) underlay_nic
      then pure tt
      else (do remove_underlay_interface (c ∷ old) ns; take_nic underlay_nic ns)

  unfoldable pub move_underlay_nic : Text → Ns → Exec State Unit
  unfolding exchange old_underlay_interface
  move_underlay_nic underlay_nic ns = do
    old ← annotate "failed to get old underlay interface" (old_underlay_interface ns)
    exchange old underlay_nic ns

  unfoldable pub found_or_created : Result Link → Exec State (Option Link)
  found_or_created (ok l) = pure (some l)
  found_or_created (err e) =
      if is_not_found e
      then (do
        l ←
            replace "failed to create loopback underlay"
              (link_add (new_link underlay_loopback 0 dummy))
        pure (some l))
      else pure none

  -- The function that SetupUnderlay runs in the router's namespace.
  unfoldable pub setup_loopback : Text → Exec State Unit
  unfolding found_or_created assign_ip_to_interface
  setup_loopback vtep_ip = do
    r ← attempt (link_by_name underlay_loopback)
    loopback ← found_or_created r
    assign_ip_to_interface nl net loopback vtep_ip

  unfoldable pub setup_underlay : UnderlayParams → Exec State Unit
  unfolding setup_loopback move_underlay_nic in_namespace
  setup_underlay params = do
    ns ← annotate "Failed to find network namespace" (ns_from_name params.target_ns)
    in_namespace nl ns (setup_loopback params.vtep_ip)
    move_underlay_nic params.main_nic ns
