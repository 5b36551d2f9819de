-- ===== src/HostNetwork/LinksStay.antt =====
-- internal/hostnetwork: what the calls of netlink keep, setupVeth keeps.
use pierre.Base.{ℕ, Option, none, some, Text, Result, ok, err, is_not_found}
use pierre.Base.Exec.{pure, attempt, annotate, ◌>>◌}
use pierre.Base.Keeps.{Keeps, Keeps-bind, Keeps-lift, Keeps-attempt, Keeps-annotate, Keeps-if}
use pierre.HostNetwork.Netlink.{Netlink, Link, Address}
use pierre.HostNetwork.Namespace.{in_namespace}
use pierre.HostNetwork.Veth
use pierre.HostNetwork.Veth.{
  is_veth, create_veth, replace_veth, checked, ensure_veth, peer, setup_veth,
}
use pierre.HostNetwork.Names.{veth_legs_for_vrf}

-- What the program relies on of the calls of netlink: they
-- keep a property of the state, such as the namespace of the thread.
pub record LinksStay {State Ns : Type 0} (nl : Netlink State Ns) (I : State → Type 0) : Type 0 where
  pub link_by_name : (name : Text) → Keeps I (nl.link_by_name name)
  pub link_by_index : (index : ℕ) → Keeps I (nl.link_by_index index)
  pub link_list : Keeps I nl.link_list
  pub link_add : (l : Link) → Keeps I (nl.link_add l)
  pub link_del : (l : Option Link) → Keeps I (nl.link_del l)
  pub link_set_up : (l : Option Link) → Keeps I (nl.link_set_up l)
  pub link_set_ns_fd : (l : Option Link) (ns : Ns) → Keeps I (nl.link_set_ns_fd l ns)
  pub veth_peer_index : (l : Link) → Keeps I (nl.veth_peer_index l)
  pub addr_list : (l : Option Link) → Keeps I (nl.addr_list l)
  pub addr_add : (l : Option Link) (a : Address) → Keeps I (nl.addr_add l a)
  pub ns_from_name : (name : Text) → Keeps I (nl.ns_from_name name)
  pub get_ns : Keeps I nl.get_ns

module _ {State Ns : Type 0} (nl : Netlink State Ns) (I : State → Type 0) (stay : LinksStay nl I)
    (inside : (ns : Ns) (index : ℕ) → Keeps I (in_namespace nl ns (nl.link_by_index index))) where
  create-Keeps : (name : Text) → Keeps I (create_veth nl name)
  unfolding create_veth
  create-Keeps name = Keeps-annotate _ _ (stay.link_add _)

  replace-Keeps : (name : Text) (link : Option Link) → Keeps I (replace_veth nl name link)
  unfolding replace_veth
  replace-Keeps name link =
      Keeps-bind (annotate "failed to delete link" (nl.link_del link)) _
        (Keeps-annotate _ _ (stay.link_del link)) (λ _. Keeps-annotate _ _ (create-Keeps name))

  found-Keeps : (name : Text) (r : Result Link) → Keeps I (Veth.found_or_created nl name r)
  unfolding Veth.found_or_created
  found-Keeps name (ok l) = Keeps-lift _
  found-Keeps name (err e) =
      Keeps-if (is_not_found e) _ _
        (Keeps-bind (create_veth nl name) _ (create-Keeps name) (λ _. Keeps-lift _)) (Keeps-lift _)

  checked-Keeps : (name : Text) (link : Option Link) → Keeps I (checked nl name link)
  unfolding checked
  checked-Keeps name none = replace-Keeps name none
  checked-Keeps name (some l) =
      Keeps-if (is_veth l.kind) _ _ (Keeps-lift _) (replace-Keeps name (some l))

  ensure-Keeps : (name : Text) → Keeps I (ensure_veth nl name)
  unfolding ensure_veth
  ensure-Keeps name =
      Keeps-bind (attempt (nl.link_by_name (veth_legs_for_vrf name).0)) _
        (Keeps-attempt _ (stay.link_by_name _))
        (λ r.
          Keeps-bind (Veth.found_or_created nl name r) _ (found-Keeps name r)
            (λ link. checked-Keeps name link))

  peer-Keeps : (ns : Ns) (index : ℕ) (r : Result Link) → Keeps I (peer nl ns index r)
  unfolding peer
  peer-Keeps ns index (ok l) = Keeps-lift _
  peer-Keeps ns index (err e) =
      Keeps-if (is_not_found e) _ _
        (Keeps-bind _ _ (Keeps-annotate _ _ (inside ns index)) (λ _. Keeps-lift _)) (Keeps-lift _)

  -- setupVeth.
  pub setup_veth-Keeps : (name : Text) (ns : Ns) → Keeps I (setup_veth nl name ns)
  unfolding setup_veth
  setup_veth-Keeps name ns = Keeps-bind (ensure_veth nl name) _ (ensure-Keeps name) (λ veth_host.
      Keeps-bind _ _ (Keeps-annotate _ _ (stay.veth_peer_index veth_host)) (λ peer_index.
        Keeps-bind _ _ (Keeps-attempt _ (stay.link_by_index peer_index)) (λ r.
          Keeps-bind (peer nl ns peer_index r) _ (peer-Keeps ns peer_index r) (λ p.
            let legs : Link × Option Link = (veth_host, p.0) in
            let moved = annotate "Failed to move to network namespace" (nl.link_set_ns_fd p.0 ns) in
            Keeps-if p.1 (pure legs) (moved >> pure legs) (Keeps-lift (ok legs)) (
              Keeps-bind moved (λ _. pure legs) (Keeps-annotate _ _ (stay.link_set_ns_fd p.0 ns))
                (λ _. Keeps-lift (ok legs)))))))
