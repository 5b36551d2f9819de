-- ===== src/HostNetwork/Veth.antt =====
-- internal/hostnetwork/veth.go: the two legs that join a VRF of the router to the host.
use pierre.Base.{
  ℕ, Bool, true, false, Option, none, some, Text, Result, ok, err, is_not_found, if◌then◌else◌,
}
use pierre.Base.Exec.{Exec, pure, attempt, annotate, ◌>>=◌, ◌>>◌}
use pierre.HostNetwork.Netlink.{Netlink, Link, Kind, veth, new_link}
use pierre.HostNetwork.Namespace.{in_namespace}
use pierre.HostNetwork.Names.{veth_legs_for_vrf}

-- `link.(*netlink.Veth)` succeeds.
abbrev pub is_veth : Kind → Bool
is_veth (veth _) = true
is_veth _ = false

module _ {State Ns : Type 0} (nl : Netlink State Ns) where
  open nl use {link_by_name, link_by_index, link_add, link_del, veth_peer_index, link_set_ns_fd}

  unfoldable pub create_veth : Text → Exec State Link
  unfolding veth_legs_for_vrf
  create_veth vrf_name =
      let (host_side, pe_side) = veth_legs_for_vrf vrf_name in
      annotate "could not add veth" (link_add (new_link host_side 0 (veth pe_side)))

  unfoldable pub found_or_created : Text → Result Link → Exec State (Option Link)
  unfolding create_veth
  found_or_created name (ok l) = pure (some l)
  found_or_created name (err e) =
      if is_not_found e then (do l ← create_veth name; pure (some l)) else pure none

  unfoldable pub replace_veth : Text → Option Link → Exec State Link
  unfolding create_veth
  replace_veth name link = do
    annotate "failed to delete link" (link_del link)
    annotate "failed create veth" (create_veth name)

  unfoldable pub checked : Text → Option Link → Exec State Link
  unfolding replace_veth
  checked name none = replace_veth name none
  checked name (some l) = if is_veth l.kind then pure l else replace_veth name (some l)

  -- setupVeth up to the search for the peer: the host's leg.
  unfoldable pub ensure_veth : Text → Exec State Link
  unfolding found_or_created checked
  ensure_veth name = do
    r ← attempt (link_by_name (veth_legs_for_vrf name).0)
    link ← found_or_created name r
    checked name link

  -- The peer, and whether it is in the router's namespace already. An error other than "not found"
  -- leaves no peer.
  unfoldable pub peer : Ns → ℕ → Result Link → Exec State (Option Link × Bool)
  peer target_ns index (ok l) = pure (some l, false)
  peer target_ns index (err e) =
      if is_not_found e
      then (do
        l ←
            annotate "could not find peer veth by index"
              (in_namespace nl target_ns (link_by_index index))
        pure (some l, true))
      else pure (none, false)

  unfoldable pub setup_veth : Text → Ns → Exec State (Link × Option Link)
  unfolding ensure_veth peer
  setup_veth name target_ns = do
    veth_host ← ensure_veth name
    peer_index ← annotate "could not find peer veth" (veth_peer_index veth_host)
    r ← attempt (link_by_index peer_index)
    (veth_pe, already) ← peer target_ns peer_index r
    if already then pure (veth_host, veth_pe) else do
      annotate "Failed to move to network namespace" (link_set_ns_fd veth_pe target_ns)
      pure (veth_host, veth_pe)
