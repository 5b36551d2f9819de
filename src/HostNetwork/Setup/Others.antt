-- ===== src/HostNetwork/Setup/Others.antt =====
-- internal/hostnetwork/vni.go: setting up one VNI in the router's namespace leaves the VRFs and
-- bridges of the others.
use pierre.Base.{subst, sym, ◌∙◌, ◌≡◌, ◌≢◌, refl, Option, some, Text, ok}
use pierre.Base.Exec.{Exec, replace}
use pierre.Base.Keeps.{Keeps}
use pierre.Base.Triple.{Triple, Triple-bind, Triple-replace, Triple-keeps}
use pierre.Net.{Net}
use pierre.HostNetwork.Params.{VniParams}
use pierre.HostNetwork.Names.{bridge_name, vxlan_name}
use pierre.HostNetwork.Netlink.{Netlink, Link}
use pierre.HostNetwork.Added.{AddKeeps}
use pierre.HostNetwork.Assign.{assign-Keeps}
use pierre.HostNetwork.Properties.{assign_ip_to_interface}
use pierre.HostNetwork.Kernel.{View, IsBase, Stays, Same, Kernel}
use pierre.HostNetwork.Vrf.{setup_vrf}
use pierre.HostNetwork.Bridge.{setup_bridge}
use pierre.HostNetwork.Vxlan.{setup_vxlan}
use pierre.HostNetwork.Vni.{setup_router_side}
use pierre.HostNetwork.Setup.{Inv}
use pierre.HostNetwork.Setup.VrfLink.{setup_vrf_triple}
use pierre.HostNetwork.Setup.BridgeLink.{setup_bridge_triple}
use pierre.HostNetwork.Setup.VxlanLink.{setup_vxlan_triple}
use pierre.HostNetwork.Setup.Router.{start}

module _ {State Ns : Type 0} (nl : Netlink State Ns) (net : Net) (v : View State Ns)
    (kernel : Kernel nl v) (keeps : AddKeeps nl) (ns : Ns) (m : Text) (l : Link)
    (base : IsBase l.kind) where
  -- The thread is in the namespace, and the link is there under its name `m`.
  pub record Kept (s : State) : Type 0 where
    pub here : v.current s ≡ ns
    pub stays : Stays l (v.link s ns m)

  Kept-Same : (s t : State) → Same v s t → Kept s → Kept t
  Kept-Same s t q k = record {
    here = q.current ∙ k.here;
    stays = record {
      now = k.stays.now;
      there = q.links ns m ∙ k.stays.there;
      kind = k.stays.kind;
      index = k.stays.index;
    };
  }

  quiet : {A : Type 0} (x : Exec State A) → ((s : State) → Same v s (x s).1) → Keeps Kept x
  quiet x q = record { after = λ s k. Kept-Same s (x s).1 (q s) k }

  -- A function that keeps the VRFs and bridges with other names than `n`.
  others_triple :
      {A : Type 0} (n : Text) (x : Exec State A) (Q : State → A → State → Type 0)
      → m ≢ n
      → ((s : State) → Triple (Inv nl v kernel ns n s) x (Q s))
      → ((s t : State) (a : A) → Q s a t → Inv nl v kernel ns n s t)
      → Triple Kept x (λ _. Kept)
  others_triple n x Q d triple inv = record {
    after = λ s t a k h.
        let i = inv s t a ((triple s).after s t a (start nl net v kernel keeps ns n s k.here) h) in
        let j = i.others m k.stays.now d k.stays.there (subst IsBase (sym k.stays.kind) base) in
        record {
          here = i.here;
          stays = record {
            now = j.now;
            there = j.there;
            kind = j.kind ∙ k.stays.kind;
            index = j.index ∙ k.stays.index;
          };
        };
  }

  master_keeps : (o : Option Link) (r : Link) → Keeps Kept (nl.link_set_master o r)
  master_keeps o r = record {
    after = λ s k.
        let spared = kernel.link_set_master o r s in
        let j =
          spared.stays m k.stays.now tt
            (subst (λ x. v.link s x m ≡ some k.stays.now) (sym k.here) k.stays.there) in
        let t = (nl.link_set_master o r s).1 in
        record {
          here = spared.current ∙ k.here;
          stays = record {
            now = j.now;
            there = subst (λ x. v.link t x m ≡ some j.now) k.here j.there;
            kind = j.kind ∙ k.stays.kind;
            index = j.index ∙ k.stays.index;
          };
        };
  }

  pub others-Kept :
      (params : VniParams) (pe_veth : Option Link)
      → m ≢ params.vrf
      → m ≢ bridge_name params.vni
      → m ≢ vxlan_name params.vni
      → Triple Kept (setup_router_side nl net params pe_veth) (λ _. Kept)
  unfolding setup_router_side
  others-Kept params pe_veth d d' d'' =
      Triple-bind (λ _. Kept) (assign_ip_to_interface nl net pe_veth params.veth_ns_ip) _
        (Triple-keeps _ (
          assign-Keeps nl net Kept pe_veth params.veth_ns_ip
            (quiet (nl.addr_list pe_veth) (kernel.addr_list pe_veth))
            (λ a. quiet (nl.addr_add pe_veth a) (kernel.addr_add pe_veth a))))
        (λ _.
          Triple-bind (λ _. Kept) (replace "could not set link up" (nl.link_set_up pe_veth)) _
            (Triple-replace _ _
              (Triple-keeps _ (quiet (nl.link_set_up pe_veth) (kernel.link_set_up pe_veth))))
            (λ _.
              Triple-bind (λ _. Kept) (setup_vrf nl params.vrf) _
                (others_triple params.vrf (setup_vrf nl params.vrf) _ d
                  (λ s. setup_vrf_triple nl v kernel keeps ns params.vrf s) (λ s t a q. q.0.inv))
                (λ r.
                  Triple-bind (λ _. Kept)
                    (replace "failed to set vrf as master of pe veth"
                      (nl.link_set_master pe_veth r))
                    _ (Triple-replace _ _ (Triple-keeps _ (master_keeps pe_veth r)))
                    (λ _.
                      Triple-bind (λ _. Kept) (setup_bridge nl params r) _
                        (others_triple (bridge_name params.vni) (setup_bridge nl params r) _ d'
                          (λ s. setup_bridge_triple nl v kernel keeps ns params r s)
                          (λ s t a q. q.0.inv))
                        (λ b.
                          others_triple (vxlan_name params.vni) (setup_vxlan nl net params b) _ d''
                            (λ s. setup_vxlan_triple nl net v kernel keeps ns params b s)
                            (λ s t a q. q.1.0.inv))))))

  -- A VRF or a bridge of the router's namespace, such as those of other VNIs, is still there with its
  -- index after the function that SetupVNI runs there has succeeded: it may have changed its master
  -- only. Its name is none of the three that the VNI uses, and the kernel keeps the laws `Kernel` and
  -- `AddKeeps`.
  pub router_side_others :
      (params : VniParams) (pe_veth : Option Link) (s t : State)
      → m ≢ params.vrf
      → m ≢ bridge_name params.vni
      → m ≢ vxlan_name params.vni
      → v.current s ≡ ns
      → v.link s ns m ≡ some l
      → setup_router_side nl net params pe_veth s ≡ (ok tt, t)
      → Stays l (v.link t ns m)
  router_side_others params pe_veth s t d d' d'' c e h =
      let k : Kept s = record {
        here = c;
        stays = record { now = l; there = e; kind = refl; index = refl };
      } in
      ((others-Kept params pe_veth d d' d'').after s t tt k h).stays
