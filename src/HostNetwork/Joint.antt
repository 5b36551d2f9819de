-- ===== src/HostNetwork/Joint.antt =====
-- internal/hostnetwork/vni.go: SetupVNI for one VNI after the other.
pub mod Sequence
use pierre.Base.{
  ap, subst, sym, ◌∙◌, ◌≡◌, ◌≢◌, Option, some, Text, List, [], ◌∷◌, ℤ, All, refl, Result, ok,
}
use pierre.Base.Exec.{Exec, replace, annotate, each, >>=-eq-ok, annotate-eq-ok}
use pierre.Base.Keeps.{Keeps}
use pierre.Base.Triple.{
  Triple, Triple-bind, Triple-replace, Triple-keeps, Triple-given, Triple-pure, Triple-annotate,
}
use pierre.Net.{Net}
use pierre.HostNetwork.Params.{VniParams}
use pierre.HostNetwork.Names.{bridge_name, vxlan_name}
use pierre.HostNetwork.Netlink.{Netlink, Link}
use pierre.HostNetwork.Added.{AddKeeps}
use pierre.HostNetwork.Assign.{assign-Keeps}
use pierre.HostNetwork.LinksStay.{setup_veth-Keeps}
use pierre.HostNetwork.Elsewhere.{
  Elsewhere, Awaits, Awaits-Same, Awaits-LinksStay, home-LinksStay, home_again, looked_inside,
}
use pierre.HostNetwork.Namespace.{in_namespace}
use pierre.HostNetwork.Namespace.Restores.{NsLaws}
use pierre.HostNetwork.Properties.{assign_ip_to_interface}
use pierre.HostNetwork.Kernel.{View, IsBase, Stays, Same, Kernel}
use pierre.HostNetwork.Veth.{setup_veth}
use pierre.HostNetwork.Vni.{setup_router_side, setup_vni}
use pierre.HostNetwork.Setup.Others.{router_side_others}
use pierre.HostNetwork.Setup.Vni.{in_namespace_lem, setup_vni_lem}
use pierre.HostNetwork.Setup.Router.{Has, vrf-IsBase, bridge-IsBase, stays-IsVrf}
use pierre.HostNetwork.Setup.VrfLink.{IsVrf}
use pierre.HostNetwork.Setup.BridgeLink.{IsBridge}
use pierre.HostNetwork.Bridge.{is_bridge}
use pierre.HostNetwork.Home.{setup_vni_home}

-- No VNI of the list uses the name.
abbrev pub Unused : List VniParams → Text → Type 0
Unused ps m =
    All (λ (p : VniParams). (m ≢ p.vrf) × (m ≢ bridge_name p.vni) × (m ≢ vxlan_name p.vni)) ps

-- The VNIs are of the target, and each has a VRF and a bridge whose names no later VNI uses.
abbrev pub IsJoint : Text → List VniParams → Type 0
IsJoint target [] = Unit
IsJoint target (p ∷ ps) =
    (p.target_ns ≡ target)
    × (p.vrf ≢ bridge_name p.vni)
    × (p.vrf ≢ vxlan_name p.vni)
    × Unused ps p.vrf
    × Unused ps (bridge_name p.vni)
    × IsJoint target ps

-- The VRF and the bridge of a VNI.
pub record IsUp {State Ns : Type 0} (v : View State Ns) (ns : Ns) (name : Text) (number : ℤ)
    (s : State) : Type 0 where
  pub vrf : Has v ns name IsVrf s
  pub bridge : Has v ns (bridge_name number) IsBridge s

pub targets :
    (target : Text) (ps : List VniParams)
    → IsJoint target ps
    → All (λ (p : VniParams). p.target_ns ≡ target) ps
targets target [] h = tt
targets target (p ∷ ps) (e, _, _, _, _, h) = (e, targets target ps h)

module _ {State Ns : Type 0} (nl : Netlink State Ns) (net : Net) (v : View State Ns)
    (kernel : Kernel nl v) (keeps : AddKeeps nl) (away : Elsewhere nl v)
    (laws : NsLaws nl v.current) (home ns : Ns) (differs : ns ≢ home)
    (back : (t : State) → (nl.set_ns home t).0 ≡ ok tt) (target : Text)
    (named : (s : State) (n : Ns) → (nl.ns_from_name target s).0 ≡ ok n → n ≡ ns) where
  module _ (m : Text) (l : Link) (base : IsBase l.kind) where
    abbrev pub Ready : State → Type 0
    Ready = Awaits nl v kernel away laws home ns differs back m l base

    quiet : {A : Type 0} (x : Exec State A) → ((s : State) → Same v s (x s).1) → Keeps Ready x
    quiet = Awaits-Same nl v kernel away laws home ns differs back m l base

    router_side_triple :
        (params : VniParams) (pe_veth : Option Link)
        → m ≢ params.vrf
        → m ≢ bridge_name params.vni
        → m ≢ vxlan_name params.vni
        → Triple Ready (in_namespace nl ns (setup_router_side nl net params pe_veth)) (λ _. Ready)
    router_side_triple params pe_veth d d' d'' = record {
      after = λ s t a r h.
          let body = setup_router_side nl net params pe_veth in
          let (u, w, c, e, before, after) = in_namespace_lem nl v kernel ns body s t tt h in
          let k = r.stays in
          let j =
            router_side_others nl net v kernel keeps ns m k.now (subst IsBase (sym k.kind) base)
              params pe_veth u w d d' d'' c (before ns m ∙ k.there) e in
          record {
            here =
                subst (λ x. v.current x ≡ home) (ap (λ (p : Result (Unit {0}) × State). p.1) h)
                  (home_again nl v kernel away laws home ns differs back m l base ns body s r.here);
            stays = record {
              now = j.now;
              there = after ns m ∙ j.there;
              kind = j.kind ∙ k.kind;
              index = j.index ∙ k.index;
            };
          };
    }

    assigned :
        (o : Option Link) (address : Text) → Keeps Ready (assign_ip_to_interface nl net o address)
    assigned o address =
        assign-Keeps nl net Ready o address (quiet (nl.addr_list o) (kernel.addr_list o))
          (λ a. quiet (nl.addr_add o a) (kernel.addr_add o a))

    target_lem :
        (name : Text)
        → name ≡ target
        → Triple Ready (nl.ns_from_name name) (λ n s. (n ≡ ns) × Ready s)
    target_lem name e = record {
      after = λ s t n r h. (
        named s n
            (subst (λ x. (nl.ns_from_name x s).0 ≡ ok n) e (ap (λ (p : Result Ns × State). p.0) h)),
        subst Ready (ap (λ (p : Result Ns × State). p.1) h)
            ((quiet (nl.ns_from_name name) (away.ns_from_name name)).after s r),
      );
    }

    -- A VRF or a bridge of the router's namespace stays while SetupVNI sets up a VNI that does not
    -- use its name.
    pub setup_vni-Ready :
        (params : VniParams)
        → params.target_ns ≡ target
        → m ≢ params.vrf
        → m ≢ bridge_name params.vni
        → m ≢ vxlan_name params.vni
        → Triple Ready (setup_vni nl net params) (λ _. Ready)
    unfolding setup_vni
    setup_vni-Ready params e d d' d'' =
        Triple-bind (λ n s. (n ≡ ns) × Ready s)
          (replace "Failed to get network namespace" (nl.ns_from_name params.target_ns)) _
          (Triple-replace _ _ (target_lem params.target_ns e))
          (λ n.
            Triple-given {F = n ≡ ns} _ (λ s p. p)
              (λ same.
                Triple-bind (λ _. Ready) (setup_veth nl params.vrf n) _
                  (Triple-keeps _ (
                    setup_veth-Keeps nl Ready
                      (Awaits-LinksStay nl v kernel away laws home ns differs back m l base)
                      (looked_inside nl v kernel away laws home ns differs back m l base) params.vrf
                      n))
                  (λ legs.
                    Triple-bind (λ _. Ready)
                      (assign_ip_to_interface nl net (some legs.0) params.veth_host_ip) _
                      (Triple-keeps _ (assigned (some legs.0) params.veth_host_ip))
                      (λ _.
                        Triple-bind (λ _. Ready)
                          (replace "could not set link up for host leg"
                            (nl.link_set_up (some legs.0)))
                          _
                          (Triple-replace _ _ (
                            Triple-keeps _ (
                              quiet (nl.link_set_up (some legs.0))
                                (kernel.link_set_up (some legs.0)))))
                          (λ _.
                            subst
                              (λ n.
                                Triple Ready
                                  (in_namespace nl n (setup_router_side nl net params legs.1))
                                  (λ _. Ready))
                              (sym same) (router_side_triple params legs.1 d d' d''))))))
