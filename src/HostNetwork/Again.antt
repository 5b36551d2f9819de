-- ===== src/HostNetwork/Again.antt =====
-- internal/hostnetwork: what is in place is found, and found to be right, so that nothing is
-- changed.
pub mod Links
pub mod Router
pub mod Veth
pub mod Vni
pub mod Underlay
use pierre.Base.{
  ap, ℕ, subst, sym, ◌∙◌, ◌≡◌, ◌≢◌, refl, Option, none, some, Text, Result, ok, err, is_not_found,
  true, false, ok-injective,
}
use pierre.Base.Exec.{Exec, pure, attempt, lift, annotate, replace, ◌>>=◌}
use pierre.Base.Keeps.{Keeps, Keeps-bind, Keeps-lift, Keeps-attempt, Keeps-annotate, Keeps-replace}
use pierre.Base.Gives.{
  Gives, Gives-bind, Gives-pure, Gives-if, Gives-annotate, Gives-replace, Gives-attempt,
  Gives-keeps, Keeps-gives,
}
use pierre.Net.{Net}
use pierre.HostNetwork.Params.{VniParams}
use pierre.HostNetwork.Names.{bridge_name, vxlan_name, veth_legs_for_vrf}
use pierre.HostNetwork.Netlink.{Netlink, Link, VxlanAttrs}
use pierre.HostNetwork.Assign.{assign-Keeps}
use pierre.HostNetwork.Elsewhere.{Elsewhere}
use pierre.HostNetwork.Namespace.{in_namespace, restore}
use pierre.HostNetwork.Namespace.Restores.{NsLaws, in_namespace_restores}
use pierre.HostNetwork.Properties.{
  assign_ip_to_interface, addr_gen_mode_none, set_neigh_suppression,
}
use pierre.HostNetwork.Kernel.{View, Same, Kernel}
use pierre.HostNetwork.Vni.{setup_router_side, setup_vni}

-- What the program relies on of the kernel for this: what is there is found, and LinkSetMaster
-- changes nothing if the link has that master already.
pub record Settled {State Ns : Type 0} (nl : Netlink State Ns) (v : View State Ns) : Type 0 where
  pub finds :
      (n : Text) (s : State) (l : Link)
      → v.link s (v.current s) n ≡ some l
      → (nl.link_by_name n s).0 ≡ ok l
  pub mastered :
      (l m : Link) (s : State)
      → l.master_index ≡ m.index
      → Same v s (nl.link_set_master (some l) m s).1

module _ {State Ns : Type 0} (nl : Netlink State Ns) (net : Net) (v : View State Ns)
    (kernel : Kernel nl v) (away : Elsewhere nl v) (settled : Settled nl v) (here : Ns)
    (s0 : State) where
  -- The links are those of the state `s0`, and the thread is in the namespace.
  pub record As (s : State) : Type 0 where
    pub links : (ns : Ns) (n : Text) → v.link s ns n ≡ v.link s0 ns n
    pub current : v.current s ≡ here

  pub quiet : {A : Type 0} (x : Exec State A) → ((s : State) → Same v s (x s).1) → Keeps As x
  quiet x q = record {
    after = λ s i. record {
      links = λ ns n. (q s).links ns n ∙ i.links ns n;
      current = (q s).current ∙ i.current;
    };
  }

  -- LinkByName on a link that is there.
  pub look_lem :
      (n : Text) (l : Link)
      → v.link s0 here n ≡ some l
      → (s : State) → As s
      → As (nl.link_by_name n s).1 × ((nl.link_by_name n s).0 ≡ ok l)
  look_lem n l e s i = (
    (quiet (nl.link_by_name n) (kernel.link_by_name n)).after s i,
    settled.finds n s l (subst (λ x. v.link s x n ≡ some l) (sym i.current) (i.links here n ∙ e)),
  )

  pub found_lem :
      (n : Text) (l : Link) → v.link s0 here n ≡ some l → Gives As (λ k. k ≡ l) (nl.link_by_name n)
  found_lem n l e = record {
    at = λ s i. let (j, h) = look_lem n l e s i in (j, λ a g. ok-injective (sym g ∙ h));
  }

  -- The name of the router's namespace.
  pub target_lem :
      (ns : Ns) (name : Text)
      → ((s : State) (n : Ns) → (nl.ns_from_name name s).0 ≡ ok n → n ≡ ns)
      → Gives As (λ n. n ≡ ns) (nl.ns_from_name name)
  target_lem ns name named = record {
    at = λ s i.
        ((quiet (nl.ns_from_name name) (away.ns_from_name name)).after s i, λ n e. named s n e);
  }

  pub assigned :
      (o : Option Link) (address : Text) → Keeps As (assign_ip_to_interface nl net o address)
  assigned o address =
      assign-Keeps nl net As o address (quiet (nl.addr_list o) (kernel.addr_list o))
        (λ a. quiet (nl.addr_add o a) (kernel.addr_add o a))

  pub up : (l : Link) → Keeps As (nl.link_set_up (some l))
  up l = quiet (nl.link_set_up (some l)) (kernel.link_set_up (some l))

  -- What is there is found, and it is of the right type.
  pub ensured :
      (n : Text) (l : Link) (found : Result Link → Exec State (Option Link))
      (checked : Option Link → Exec State Link)
      → v.link s0 here n ≡ some l
      → Gives As (λ o. o ≡ some l) (found (ok l))
      → Gives As (λ k. k ≡ l) (checked (some l))
      → Gives As (λ k. k ≡ l) (attempt (nl.link_by_name n) >>= λ r. found r >>= checked)
  ensured n l found checked e first last =
      Gives-bind {P = λ x. x ≡ ok l} (attempt (nl.link_by_name n)) _
        (Gives-attempt (nl.link_by_name n) (look_lem n l e))
        (λ x h.
          Gives-bind {P = λ o. o ≡ some l} (found x) checked
            (subst (λ x. Gives As (λ o. o ≡ some l) (found x)) (sym h) first)
            (λ o k. subst (λ o. Gives As (λ k. k ≡ l) (checked o)) (sym k) last))

  pub gen_mode : (l : Link) → Keeps As (addr_gen_mode_none nl l)
  unfolding addr_gen_mode_none
  gen_mode l =
      Keeps-bind (annotate "error opening file" (nl.open_file _)) _
        (Keeps-annotate _ _ (quiet (nl.open_file _) (kernel.open_file _)))
        (λ file. Keeps-annotate _ _ (quiet (nl.write_file file _) (kernel.write_file file _)))

  pub suppressed : (l : Link) → Keeps As (set_neigh_suppression nl l)
  unfolding set_neigh_suppression
  suppressed l =
      Keeps-annotate _ _ (quiet (nl.set_protinfo l.index 32 _) (kernel.set_protinfo l.index 32 _))
