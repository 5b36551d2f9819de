-- ===== src/HostNetwork/Joint/Sequence.antt =====
-- internal/controller/host_config.go: SetupVNI for all VNIs.
use pierre.Base.{ap, subst, ◌∙◌, ◌≡◌, ◌≢◌, some, Text, List, [], ◌∷◌, All, refl, Result, ok}
use pierre.Base.Exec.{Exec, annotate, each, >>=-eq-ok, annotate-eq-ok}
use pierre.Base.Triple.{Triple, Triple-bind, Triple-pure, Triple-annotate}
use pierre.Net.{Net}
use pierre.HostNetwork.Params.{VniParams}
use pierre.HostNetwork.Names.{bridge_name}
use pierre.HostNetwork.Netlink.{Netlink, Link}
use pierre.HostNetwork.Added.{AddKeeps}
use pierre.HostNetwork.Elsewhere.{Elsewhere, home-LinksStay}
use pierre.HostNetwork.Namespace.Restores.{NsLaws}
use pierre.HostNetwork.Kernel.{View, IsBase, Stays, Kernel}
use pierre.HostNetwork.Vni.{setup_vni}
use pierre.HostNetwork.Setup.Vni.{setup_vni_lem}
use pierre.HostNetwork.Setup.Router.{Has, vrf-IsBase, bridge-IsBase, stays-IsVrf}
use pierre.HostNetwork.Setup.VrfLink.{IsVrf}
use pierre.HostNetwork.Setup.BridgeLink.{IsBridge}
use pierre.HostNetwork.Bridge.{is_bridge}
use pierre.HostNetwork.Home.{setup_vni_home}
use pierre.HostNetwork.Joint.{Unused, IsJoint, IsUp, targets, Ready, setup_vni-Ready}

module _ {State Ns : Type 0} (nl : Netlink State Ns) (net : Net) (v : View State Ns)
    (kernel : Kernel nl v) (keeps : AddKeeps nl) (away : Elsewhere nl v)
    (laws : NsLaws nl v.current) (home ns : Ns) (differs : ns ≢ home)
    (back : (t : State) → (nl.set_ns home t).0 ≡ ok tt) (target : Text)
    (named : (s : State) (n : Ns) → (nl.ns_from_name target s).0 ≡ ok n → n ≡ ns) where
  abbrev pub setup_all : List VniParams → Exec State Unit
  setup_all = each (λ p. annotate "failed to setup vni" (setup_vni nl net p))

  module _ (m : Text) (l : Link) (base : IsBase l.kind) where
    setup_all-Ready :
        (ps : List VniParams)
        → All (λ (p : VniParams). p.target_ns ≡ target) ps
        → Unused ps m
        → Triple
            (Ready nl net v kernel keeps away laws home ns differs back target named m l base)
            (setup_all ps)
            (λ _. Ready nl net v kernel keeps away laws home ns differs back target named m l base)
    unfolding each
    setup_all-Ready [] _ _ = Triple-pure tt (λ s r. r)
    setup_all-Ready (p ∷ ps) (e, es) ((d, d', d''), us) =
        Triple-bind
          (λ _. Ready nl net v kernel keeps away laws home ns differs back target named m l base)
          (annotate "failed to setup vni" (setup_vni nl net p)) _
          (Triple-annotate _ _ (
            setup_vni-Ready nl net v kernel keeps away laws home ns differs back target named m l
              base p e d d' d''))
          (λ _. setup_all-Ready ps es us)

  setup_all-IsUp :
      (p : VniParams) (ps : List VniParams) (s t : State)
      → All (λ (p : VniParams). p.target_ns ≡ target) ps
      → Unused ps p.vrf
      → Unused ps (bridge_name p.vni)
      → v.current s ≡ home
      → IsUp v ns p.vrf p.vni s
      → setup_all ps s ≡ (ok tt, t)
      → IsUp v ns p.vrf p.vni t
  setup_all-IsUp p ps s t es free free' c up h =
      let r = up.vrf.link in
      let b = up.bridge.link in
      let at : (n : Text) (l : Link) → v.link s ns n ≡ some l → Stays l (v.link s ns n) =
        λ n l e. record { now = l; there = e; kind = refl; index = refl } in
      let r' =
        ((setup_all-Ready p.vrf r (vrf-IsBase r.kind up.vrf.holds.0 up.vrf.holds.1) ps es
            free).after
          s t tt (record { here = c; stays = at p.vrf r up.vrf.there }) h).stays in
      let b' =
        ((setup_all-Ready (bridge_name p.vni) b (bridge-IsBase b.kind up.bridge.holds) ps es
            free').after
          s t tt (record { here = c; stays = at (bridge_name p.vni) b up.bridge.there }) h).stays in
      record {
        vrf = stays-IsVrf nl net v kernel keeps ns p.vrf r t up.vrf.holds r';
        bridge = record {
          link = b'.now;
          there = b'.there;
          holds = ap is_bridge b'.kind ∙ up.bridge.holds;
        };
      }

  -- SetupVNI for all VNIs.
  pub setup_all_lem :
      (ps : List VniParams) (s t : State)
      → IsJoint target ps
      → v.current s ≡ home
      → setup_all ps s ≡ (ok tt, t)
      → All (λ (p : VniParams). IsUp v ns p.vrf p.vni t) ps
  unfolding each
  setup_all_lem [] s t h c e = tt
  setup_all_lem (p ∷ ps) s t (target_eq, d, d', free, free', h) c e =
      let (_, u, e1, e2) = >>=-eq-ok (annotate "failed to setup vni" (setup_vni nl net p)) _ s e in
      let f = annotate-eq-ok "failed to setup vni" (setup_vni nl net p) s e1 in
      let (n, found, set) = setup_vni_lem nl net v kernel keeps p s u d d' f in
      let here : n ≡ ns = named s n (subst (λ x. (nl.ns_from_name x s).0 ≡ ok n) target_eq found) in
      let c' : v.current u ≡ home =
        subst (λ x. v.current x ≡ home) (ap (λ (p : Result (Unit {0}) × State). p.1) f)
          ((setup_vni_home nl net v.current home laws (home-LinksStay nl v kernel away home) back
              p).after
            s c) in
      let up : IsUp v ns p.vrf p.vni u = record {
        vrf = subst (λ x. Has v x p.vrf IsVrf u) here set.vrf;
        bridge = subst (λ x. Has v x (bridge_name p.vni) IsBridge u) here set.bridge;
      } in
      (
        setup_all-IsUp p ps u t (targets target ps h) free free' c' up e2,
        setup_all_lem ps u t h c' e2,
      )
