-- ===== src/HostNetwork/Setup/Router.antt =====
-- internal/hostnetwork/vni.go: what SetupVNI leaves in the router's namespace.
use pierre.Base.{ℕ, ap, subst, sym, ◌∙◌, ◌≡◌, ◌≢◌, refl, true, Option, some, Text, Result, ok}
use pierre.Base.Exec.{◌>>=◌, Exec, replace, >>=-eq-ok, replace-eq-ok}
use pierre.Base.Keeps.{Keeps}
use pierre.Net.{Net}
use pierre.HostNetwork.Params.{VniParams}
use pierre.HostNetwork.Names.{bridge_name, vxlan_name}
use pierre.HostNetwork.Netlink.{Netlink, Link, Kind, dummy, bridge, veth, vrf, vxlan, other}
use pierre.HostNetwork.Added.{AddKeeps}
use pierre.HostNetwork.Assign.{assign-Keeps}
use pierre.HostNetwork.Properties.{assign_ip_to_interface}
use pierre.HostNetwork.Kernel.{View, IsBase, Stays, Same, Kernel}
use pierre.HostNetwork.Vrf.{vrf_table, setup_vrf}
use pierre.HostNetwork.Bridge.{is_bridge, setup_bridge}
use pierre.HostNetwork.Vxlan.{setup_vxlan}
use pierre.HostNetwork.Vxlan.Configured.{IsFor}
use pierre.HostNetwork.Vni.{setup_router_side}
use pierre.HostNetwork.Setup.{Inv}
use pierre.HostNetwork.Setup.VrfLink.{IsVrf, setup_vrf_triple}
use pierre.HostNetwork.Setup.BridgeLink.{IsBridge, setup_bridge_triple}
use pierre.HostNetwork.Setup.VxlanLink.{setup_vxlan_triple}

pub vrf-IsBase : (k : Kind) (table : ℕ) → vrf_table k ≡ some table → IsBase k
vrf-IsBase (vrf t) table e = tt
vrf-IsBase dummy table e = cc
vrf-IsBase bridge table e = cc
vrf-IsBase (veth p) table e = cc
vrf-IsBase (vxlan a) table e = cc
vrf-IsBase (other o) table e = cc

pub bridge-IsBase : (k : Kind) → is_bridge k ≡ true → IsBase k
bridge-IsBase bridge e = tt
bridge-IsBase (vrf t) e = cc
bridge-IsBase dummy e = cc
bridge-IsBase (veth p) e = cc
bridge-IsBase (vxlan a) e = cc
bridge-IsBase (other o) e = cc

-- A link of the name, of which `P` is true.
pub record Has {State Ns : Type 0} (v : View State Ns) (ns : Ns) (n : Text) (P : Link → Type 0)
    (s : State) : Type 0 where
  pub link : Link
  pub there : v.link s ns n ≡ some link
  pub holds : P link

-- The three interfaces of a VNI.
pub record IsSetUp {State Ns : Type 0} (v : View State Ns) (net : Net) (params : VniParams)
    (ns : Ns) (s : State) : Type 0 where
  pub vrf : Has v ns params.vrf IsVrf s
  pub bridge : Has v ns (bridge_name params.vni) IsBridge s
  pub vxlan : Has v ns (vxlan_name params.vni) (IsFor net params bridge.link) s

module _ {State Ns : Type 0} (nl : Netlink State Ns) (net : Net) (v : View State Ns)
    (kernel : Kernel nl v) (keeps : AddKeeps nl) (ns : Ns) where
  pub start : (n : Text) (s : State) → v.current s ≡ ns → Inv nl v kernel ns n s s
  start n s c = record {
    others = λ m l d e b. record { now = l; there = e; kind = refl; index = refl };
    here = c;
  }

  pub stays-IsVrf :
      (n : Text) (l : Link) (s : State) → IsVrf l → Stays l (v.link s ns n) → Has v ns n IsVrf s
  stays-IsVrf n l s (table, e) k = record {
    link = k.now;
    there = k.there;
    holds = (table, ap vrf_table k.kind ∙ e);
  }

  mastered_step :
      (l : Option Link) (r : Link) (s t : State) {n : Text}
      → v.current s ≡ ns
      → v.link s ns n ≡ some r
      → nl.link_set_master l r s ≡ (ok tt, t)
      → (v.current t ≡ ns) × Stays r (v.link t ns n)
  mastered_step l r s t {n} c e h =
      let spared = kernel.link_set_master l r s in
      let p : (nl.link_set_master l r s).1 ≡ t = ap (λ (p : Result (Unit {0}) × State). p.1) h in
      let at : v.link s (v.current s) n ≡ some r = subst (λ x. v.link s x n ≡ some r) (sym c) e in
      (
        subst (λ u. v.current u ≡ ns) p (spared.current ∙ c),
        subst (λ u. Stays r (v.link u ns n)) p
            (subst (λ x. Stays r (v.link (nl.link_set_master l r s).1 x n)) c
              (spared.stays n r tt at)),
      )

  module _ (params : VniParams) (vrf_differs : params.vrf ≢ bridge_name params.vni)
      (vrf_differs' : params.vrf ≢ vxlan_name params.vni)
      (bridge_differs : bridge_name params.vni ≢ vxlan_name params.vni) where
    -- From the VRF on.
    vxlan_step :
        (s t : State) (b : Link)
        → v.current s ≡ ns
        → Has v ns params.vrf IsVrf s
        → v.link s ns (bridge_name params.vni) ≡ some b
        → IsBridge b
        → setup_vxlan nl net params b s ≡ (ok tt, t)
        → IsSetUp v net params ns t
    vxlan_step s t b c has at is h =
        let (l, (found, settings)) =
          (setup_vxlan_triple nl net v kernel keeps ns params b s).after s t tt
            (start (vxlan_name params.vni) s c) h in
        let k =
          found.inv.others (bridge_name params.vni) b bridge_differs at (bridge-IsBase b.kind is) in
        let r =
          found.inv.others params.vrf has.link vrf_differs' has.there
            (vrf-IsBase has.link.kind has.holds.0 has.holds.1) in
        record {
          vrf = stays-IsVrf params.vrf has.link t has.holds r;
          bridge = record { link = k.now; there = k.there; holds = ap is_bridge k.kind ∙ is };
          vxlan = record {
            link = l;
            there = found.there;
            holds = record {
              attrs = settings.attrs;
              is_vxlan = settings.is_vxlan;
              master = settings.master ∙ sym k.index;
              id = settings.id;
              port = settings.port;
              learning = settings.learning;
              source = settings.source;
            };
          };
        }

    bridge_step :
        (s t : State) (r : Link)
        → v.current s ≡ ns
        → Has v ns params.vrf IsVrf s
        → (setup_bridge nl params r >>= λ b. setup_vxlan nl net params b) s ≡ (ok tt, t)
        → IsSetUp v net params ns t
    bridge_step s t r c has h =
        let (b, u, e, g) =
          >>=-eq-ok (setup_bridge nl params r) (λ b. setup_vxlan nl net params b) s h in
        let (found, is) =
          (setup_bridge_triple nl v kernel keeps ns params r s).after s u b
            (start (bridge_name params.vni) s c) e in
        let k =
          found.inv.others params.vrf has.link vrf_differs has.there
            (vrf-IsBase has.link.kind has.holds.0 has.holds.1) in
        vxlan_step u t b found.inv.here (stays-IsVrf params.vrf has.link u has.holds k) found.there
          is g

    abbrev Here : State → Type 0
    Here s = v.current s ≡ ns

    kept :
        {A : Type 0} (m : Exec State A) (s t : State) (a : A)
        → Keeps Here m
        → v.current s ≡ ns
        → m s ≡ (ok a, t)
        → v.current t ≡ ns
    kept {A} m s t a k c h = subst Here (ap (λ (p : Result A × State). p.1) h) (k.after s c)

    quiet : {A : Type 0} (m : Exec State A) → ((s : State) → Same v s (m s).1) → Keeps Here m
    quiet m q = record { after = λ s c. (q s).current ∙ c }

    -- The three interfaces after the function that runs in the router's namespace.
    pub router_side_lem :
        (pe_veth : Option Link) (s t : State)
        → v.current s ≡ ns
        → setup_router_side nl net params pe_veth s ≡ (ok tt, t)
        → IsSetUp v net params ns t
    unfolding setup_router_side
    router_side_lem pe_veth s t c h =
        let (_, s1, e1, h1) =
          >>=-eq-ok (assign_ip_to_interface nl net pe_veth params.veth_ns_ip) _ s h in
        let c1 =
          kept (assign_ip_to_interface nl net pe_veth params.veth_ns_ip) s s1 tt
            (assign-Keeps nl net Here pe_veth params.veth_ns_ip
              (quiet (nl.addr_list pe_veth) (kernel.addr_list pe_veth))
              (λ a. quiet (nl.addr_add pe_veth a) (kernel.addr_add pe_veth a)))
            c e1 in
        let (_, s2, e2, h2) =
          >>=-eq-ok (replace "could not set link up" (nl.link_set_up pe_veth)) _ s1 h1 in
        let c2 =
          kept (nl.link_set_up pe_veth) s1 s2 tt
            (quiet (nl.link_set_up pe_veth) (kernel.link_set_up pe_veth)) c1
            (replace-eq-ok "could not set link up" (nl.link_set_up pe_veth) s1 e2) in
        let (r, s3, e3, h3) = >>=-eq-ok (setup_vrf nl params.vrf) _ s2 h2 in
        let (found, is) =
          (setup_vrf_triple nl v kernel keeps ns params.vrf s2).after s2 s3 r
            (start params.vrf s2 c2) e3 in
        let (_, s4, e4, h4) =
          >>=-eq-ok
            (replace "failed to set vrf as master of pe veth" (nl.link_set_master pe_veth r)) _ s3
            h3 in
        let (c4, k) = mastered_step pe_veth r s3 s4 found.inv.here found.there (
          replace-eq-ok "failed to set vrf as master of pe veth" (nl.link_set_master pe_veth r) s3
            e4) in
        bridge_step s4 t r c4 (stays-IsVrf params.vrf r s4 is k) h4
