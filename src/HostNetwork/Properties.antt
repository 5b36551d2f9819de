-- ===== src/HostNetwork/Properties.antt =====
-- internal/hostnetwork/properties.go: addresses, kernel settings and the namespace of an interface.
use pierre.Base.{
  ℕ, ◌-◌, ◌/◌, ◌%◌, ◌==◌, Bool, true, false, Option, some, List, [], ◌∷◌, ◌++◌, Text, codes,
  eq_text, wrap, Result, ok, err, is_exist, is_not_found, if◌then◌else◌,
}
use pierre.Base.Exec.{Exec, pure, lift, attempt, annotate, replace, each, ◌>>=◌, ◌>>◌}
use pierre.Net.{Net, net_string}
use pierre.HostNetwork.Netlink.{Netlink, Link, Address}
use pierre.HostNetwork.Namespace.{in_namespace}

module _ {State Ns : Type 0} (nl : Netlink State Ns) (net : Net) where
  open nl use {parse_addr, addr_list, addr_add}

  has_address : List Address → Text → Bool
  has_address [] address = false
  has_address (a ∷ rest) address =
      let later = has_address rest address in
      if eq_text (net_string net a.net) address then true else later

  unfoldable pub interface_has_ip : Option Link → Text → Exec State Bool
  unfolding has_address
  interface_has_ip link address = do
    replace "failed to parse address" (lift (parse_addr address))
    addresses ← replace "failed to list addresses" (addr_list link)
    pure (has_address addresses address)

  unfoldable pub assign_ip_to_interface : Option Link → Text → Exec State Unit
  unfolding interface_has_ip
  assign_ip_to_interface link address = do
    has_ip ← interface_has_ip link address
    if has_ip then pure tt else do
      addr ← replace "failed to parse address" (lift (parse_addr address))
      replace "failed to add address" (addr_add link addr)

module _ {State Ns : Type 0} (nl : Netlink State Ns) where
  open nl use {
    link_by_name, link_set_up, link_set_ns_fd, addr_list, addr_add, open_file, write_file,
    set_protinfo,
  }

  unfoldable pub addr_gen_mode_none : Link → Exec State Unit
  addr_gen_mode_none l = do
    file ←
        annotate "error opening file"
          (open_file (codes "/proc/sys/net/ipv6/conf/" ++ l.name ++ codes "/addr_gen_mode"))
    annotate "error writing to file" (write_file file (codes "1" ++ 10 ∷ []))

  unfoldable pub set_neigh_suppression : Link → Exec State Unit
  set_neigh_suppression link =
      annotate "error executing request" (set_protinfo link.index 32 (1 ∷ []))

  -- `a.Flags &= ^0x200`
  abbrev clear_no_prefix_route : ℕ → ℕ
  clear_no_prefix_route flags = if flags / 512 % 2 == 1 then flags - 512 else flags

  -- An address that is there already is no error.
  unfoldable pub tolerate_exist : Result (Unit {0}) → Result (Unit {0})
  tolerate_exist (ok _) = ok tt
  tolerate_exist (err e) = if is_exist e then ok tt else err (wrap "Failed to add address" e)

  unfoldable pub restore_address : Option Link → Address → Exec State Unit
  unfolding tolerate_exist
  restore_address ns_link a = do
    r ← attempt (addr_add ns_link (record a { flags = clear_no_prefix_route a.flags }))
    lift (tolerate_exist r)

  -- What is done in the target namespace once the interface is there.
  unfoldable pub settle : Text → List Address → Exec State Unit
  unfolding restore_address each
  settle nic addresses = do
    ns_link ← annotate "Failed to get link by name in network namespace" (link_by_name nic)
    annotate "Failed to set up in network namespace" (link_set_up (some ns_link))
    each (restore_address (some ns_link)) addresses

  unfoldable pub move_absent : Text → Ns → Result Link → Exec State Unit
  unfolding settle
  move_absent nic ns (ok _) = pure tt
  move_absent nic ns (err _) = do
    link ← annotate "Failed to find link" (link_by_name nic)
    addresses ← annotate "Failed to get addresses for nic" (addr_list (some link))
    annotate "Failed to move to network namespace" (link_set_ns_fd (some link) ns)
    in_namespace nl ns (settle nic addresses)

  unfoldable pub move_nic_to_namespace : Text → Ns → Exec State Unit
  unfolding move_absent in_namespace
  move_nic_to_namespace nic ns = do
    present ← attempt (in_namespace nl ns (annotate "Failed to find link" (link_by_name nic)))
    move_absent nic ns present

  found : Result Link → Result Bool
  found (ok _) = ok true
  found (err e) = if is_not_found e then ok false else err (wrap "failed to find link in ns" e)

  unfoldable pub ns_has_nic : Text → Exec State Bool
  unfolding found
  ns_has_nic nic = do r ← attempt (link_by_name nic); lift (found r)
