-- ===== src/HostNetwork/Cleanup/Kept.antt =====
-- internal/hostnetwork/vni.go: the VRF and the bridge of a VNI that is configured stay through
-- RemoveNonConfiguredVNIs.
use pierre.Base.{
  ap, subst, sym, ◌∙◌, ◌≡◌, ◌≢◌, refl, ℕ, true, false, Result-cases, inl, inr, some, Text, codes,
  List, In, ok, eq_text, contains, arith,
}
use pierre.Base.Decimal.{InInt}
use pierre.Base.Exec.{Exec, pure, annotate}
use pierre.Base.Keeps.{Keeps, Keeps-bind, Keeps-lift, Keeps-annotate, Keeps-if, Keeps-each}
use pierre.HostNetwork.Params.{VniParams}
use pierre.HostNetwork.Names.{bridge_name, vrf_for_host_leg, vni_from_bridge_name}
use pierre.HostNetwork.Netlink.{
  Netlink, Link, Kind, dummy, bridge, veth, vrf, vxlan, other, link_type,
}
use pierre.HostNetwork.Namespace.{in_namespace}
use pierre.HostNetwork.Namespace.Restores.{NsLaws}
use pierre.HostNetwork.Kernel.{View, IsBase, Stays, Kernel}
use pierre.HostNetwork.Elsewhere.{Elsewhere, Awaits, Awaits-LinksStay, home_again}
use pierre.HostNetwork.Vrf.{vrf_table}
use pierre.HostNetwork.Bridge.{is_bridge}
use pierre.HostNetwork.Setup.Router.{vrf-IsBase, bridge-IsBase}
use pierre.HostNetwork.Setup.VrfLink.{IsVrf}
use pierre.HostNetwork.Setup.BridgeLink.{IsBridge}
use pierre.HostNetwork.Joint.{IsUp}
use pierre.HostNetwork.Underlay.Nic.{Lists}
use pierre.HostNetwork.Cleanup.{
  vrfs_of, vnis_of, is_host_leg, remove_host_leg, remove_router_side, remove_non_configured_vnis,
}
use pierre.HostNetwork.Cleanup.Stale.{stale, stale_vrf, configured_kept, renamed}
use pierre.HostNetwork.Cleanup.Run.{Inside, Fresh, remove_router_side-Keeps}

vrf_type : (k : Kind) (table : ℕ) → vrf_table k ≡ some table → link_type k ≡ codes "vrf"
unfolding link_type
vrf_type (vrf t) table e = refl
vrf_type dummy table e = cc
vrf_type bridge table e = cc
vrf_type (veth p) table e = cc
vrf_type (vxlan a) table e = cc
vrf_type (other o) table e = cc

bridge_type : (k : Kind) → is_bridge k ≡ true → link_type k ≡ codes "bridge"
unfolding link_type
bridge_type bridge e = refl
bridge_type (vrf t) e = cc
bridge_type dummy e = cc
bridge_type (veth p) e = cc
bridge_type (vxlan a) e = cc
bridge_type (other o) e = cc

module _ {State Ns : Type 0} (nl : Netlink State Ns) (v : View State Ns) (kernel : Kernel nl v)
    (lists : Lists nl v) (away : Elsewhere nl v) (laws : NsLaws nl v.current) (home ns : Ns)
    (differs : ns ≢ home) (back : (t : State) → (nl.set_ns home t).0 ≡ ok tt) where
  module _ (m : Text) (l : Link) (base : IsBase l.kind) where
    abbrev Ready : State → Type 0
    Ready = Awaits nl v kernel away laws home ns differs back m l base

    abbrev Within : State → Type 0
    Within = Inside nl v kernel lists ns m l base

    moved :
        (s t : State)
        → v.link t ns m ≡ v.link s ns m
        → Stays l (v.link s ns m)
        → Stays l (v.link t ns m)
    moved s t e k = record { now = k.now; there = e ∙ k.there; kind = k.kind; index = k.index }

    -- A function that runs in the router's namespace and keeps the link there.
    stays_within :
        {A : Type 0} (body : Exec State A)
        → Keeps Within body
        → (s : State) → Stays l (v.link s ns m)
        → Stays l (v.link (in_namespace nl ns body s).1 ns m)
    unfolding in_namespace
    stays_within body k s x =
        let t = (nl.get_ns s).1 in
        let got = moved s t ((kernel.get_ns s).links ns m) x in
        elim (Result-cases (nl.get_ns s).0) [
          | inr (y, e) ↦
              let end : (in_namespace nl ns body s).1 ≡ t = ground (arith, e) in
              subst (λ z. Stays l (v.link z ns m)) (sym end) got
          | inl (orig, e) ↦
              let u = (nl.set_ns ns t).1 in
              let entered = moved t u (kernel.set_links ns t ns m) got in
              elim (Result-cases (nl.set_ns ns t).0) [
                | inr (y, f) ↦
                    let end : (in_namespace nl ns body s).1 ≡ u = ground (arith, e, f) in
                    subst (λ z. Stays l (v.link z ns m)) (sym end) entered
                | inl (y, f) ↦
                    let w = (body u).1 in
                    let after =
                      k.after u (record { here = kernel.set_ok ns t f; stays = entered }) in
                    let last =
                      moved w (nl.set_ns orig w).1 (kernel.set_links orig w ns m) after.stays in
                    let end : (in_namespace nl ns body s).1 ≡ (nl.set_ns orig w).1 =
                      ground (arith, e, f) in
                    subst (λ z. Stays l (v.link z ns m)) (sym end) last
              ]
        ]

    legs-Keeps : (vrfs : List Text) (k : Link) → Keeps Ready (remove_host_leg nl vrfs k)
    unfolding remove_host_leg
    legs-Keeps vrfs k =
        let stay = Awaits-LinksStay nl v kernel away laws home ns differs back m l base in
        Keeps-if (is_host_leg k) _ _
          (Keeps-if (contains vrfs (vrf_for_host_leg k.name)) (pure tt)
            (annotate "remove host leg" (nl.link_del (some k))) (Keeps-lift (ok tt))
            (Keeps-annotate _ _ (stay.link_del (some k))))
          (Keeps-lift (ok tt))

    remove-Keeps :
        (ps : List VniParams)
        → Fresh nl v kernel lists ns m l base (vrfs_of ps) (vnis_of ps)
        → Keeps Ready (remove_non_configured_vnis nl ns ps)
    unfolding remove_non_configured_vnis
    remove-Keeps ps fresh =
        let stay = Awaits-LinksStay nl v kernel away laws home ns differs back m l base in
        let body = remove_router_side nl (vrfs_of ps) (vnis_of ps) in
        Keeps-bind (annotate "failed to list links" nl.link_list) _
          (Keeps-annotate _ _ stay.link_list)
          (λ links.
            Keeps-bind _ _
              (Keeps-each (remove_host_leg nl (vrfs_of ps)) links (legs-Keeps (vrfs_of ps)))
              (λ _. record {
                after = λ s a. record {
                  here =
                      home_again nl v kernel away laws home ns differs back m l base ns body s
                        a.here;
                  stays =
                      stays_within body
                        (remove_router_side-Keeps nl v kernel lists ns m l base (vrfs_of ps)
                          (vnis_of ps) fresh)
                        s a.stays;
                };
              }))

  module _ (ps : List VniParams) (p : VniParams) (mem : In p ps) (range : InInt p.vni) where
    vrf-Fresh :
        (l : Link) (is : IsVrf l)
        → Fresh nl v kernel lists ns p.vrf l (vrf-IsBase l.kind is.0 is.1) (vrfs_of ps) (vnis_of ps)
    unfolding eq_text
    vrf-Fresh l (table, e) = record {
      vxlan = λ k f g. let t = vrf_type k.kind table (ap vrf_table f ∙ e) in ground (arith, t);
      bridge = λ k f g. let t = vrf_type k.kind table (ap vrf_table f ∙ e) in ground (arith, t);
      vrf = λ k f g.
          subst (λ n. stale_vrf (vrfs_of ps) (renamed n k) ≡ false) (sym g)
            (configured_kept ps p mem range k).3;
    }

    bridge-Fresh :
        (l : Link) (is : IsBridge l)
        → Fresh nl v kernel lists ns
            (bridge_name p.vni)
            l
            (bridge-IsBase l.kind is)
            (vrfs_of ps)
            (vnis_of ps)
    unfolding eq_text
    bridge-Fresh l is = record {
      vxlan = λ k f g. let t = bridge_type k.kind (ap is_bridge f ∙ is) in ground (arith, t);
      bridge = λ k f g.
          subst
            (λ n. stale (codes "bridge") (vnis_of ps) vni_from_bridge_name (renamed n k) ≡ false)
            (sym g) (configured_kept ps p mem range k).0;
      vrf = λ k f g. let t = bridge_type k.kind (ap is_bridge f ∙ is) in ground (arith, t);
    }

    stays_now : (n : Text) (l : Link) (s : State) → v.link s ns n ≡ some l → Stays l (v.link s ns n)
    stays_now n l s e = record { now = l; there = e; kind = refl; index = refl }

    -- Removing what is not configured takes nothing from a VNI that is: its VRF and its bridge are in
    -- the router's namespace after RemoveNonConfiguredVNIs, whether that succeeds or stops at an
    -- error, if they were there before. The VNI is in the range of an int, the thread starts in
    -- another namespace and can always be set back to it, what LinkList lists is there, and the kernel
    -- keeps the laws `Kernel`, `Elsewhere` and `NsLaws`.
    pub remove_non_configured_vnis-IsUp :
        (s : State)
        → v.current s ≡ home
        → IsUp v ns p.vrf p.vni s
        → IsUp v ns p.vrf p.vni (remove_non_configured_vnis nl ns ps s).1
    remove_non_configured_vnis-IsUp s c up =
        let r = up.vrf.link in
        let b = up.bridge.link in
        let r' =
          ((remove-Keeps p.vrf r (vrf-IsBase r.kind up.vrf.holds.0 up.vrf.holds.1) ps
              (vrf-Fresh r up.vrf.holds)).after
            s (record { here = c; stays = stays_now p.vrf r s up.vrf.there })).stays in
        let b' =
          ((remove-Keeps (bridge_name p.vni) b (bridge-IsBase b.kind up.bridge.holds) ps
              (bridge-Fresh b up.bridge.holds)).after
            s
            (record {
              here = c;
              stays = stays_now (bridge_name p.vni) b s up.bridge.there;
            })).stays in
        record {
          vrf = record {
            link = r'.now;
            there = r'.there;
            holds = (up.vrf.holds.0, ap vrf_table r'.kind ∙ up.vrf.holds.1);
          };
          bridge = record {
            link = b'.now;
            there = b'.there;
            holds = ap is_bridge b'.kind ∙ up.bridge.holds;
          };
        }
