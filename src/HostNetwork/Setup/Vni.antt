-- ===== src/HostNetwork/Setup/Vni.antt =====
-- internal/hostnetwork/vni.go: SetupVNI as a whole.
use pierre.Base.{
  [], ◌∷◌, arith, ok-injective, ℤ, ℕ, ap, subst, ◌∙◌, ◌≡◌, ◌≢◌, some, Text, Result, ok,
}
use pierre.Base.Exec.{Exec, attempt, replace, lift, >>=-eq-ok, replace-eq-ok}
use pierre.Net.{Net}
use pierre.HostNetwork.Params.{VniParams}
use pierre.HostNetwork.Names.{bridge_name, vxlan_name}
use pierre.HostNetwork.Netlink.{Netlink, Link}
use pierre.HostNetwork.Added.{AddKeeps}
use pierre.HostNetwork.Namespace.{in_namespace, restore}
use pierre.HostNetwork.Properties.{assign_ip_to_interface}
use pierre.HostNetwork.Kernel.{View, Kernel}
use pierre.HostNetwork.Veth.{setup_veth}
use pierre.HostNetwork.Vxlan.Configured.{IsFor}
use pierre.HostNetwork.Vni.{setup_router_side, setup_vni}
use pierre.HostNetwork.Setup.VrfLink.{IsVrf}
use pierre.HostNetwork.Setup.Router.{Has, IsSetUp, router_side_lem}

module _ {State Ns : Type 0} (nl : Netlink State Ns) (v : View State Ns)
    (kernel : Kernel nl v) where
  -- A function that succeeds in another namespace is run there on the links that there are, and the
  -- links are then as it left them.
  pub in_namespace_lem :
      {A : Type 0} (ns : Ns) (body : Exec State A) (s t : State) (a : A)
      → in_namespace nl ns body s ≡ (ok a, t)
      → (u w : State) × (v.current u ≡ ns)
        × (body u ≡ (ok a, w))
        × ((n : Ns) (k : Text) → v.link u n k ≡ v.link s n k)
        × ((n : Ns) (k : Text) → v.link t n k ≡ v.link w n k)
  unfolding in_namespace restore
  in_namespace_lem {A} ns body s t a h =
      let (orig, s1, e1, h1) =
        >>=-eq-ok (replace "failed to get current network namespace" nl.get_ns) _ s h in
      let (_, u, e2, h2) =
        >>=-eq-ok (replace "failed to set current network namespace" (nl.set_ns ns)) _ s1 h1 in
      let p = replace-eq-ok "failed to set current network namespace" (nl.set_ns ns) s1 e2 in
      let got : (nl.get_ns s).1 ≡ s1 =
        ap (λ (p : Result Ns × State). p.1)
          (replace-eq-ok "failed to get current network namespace" nl.get_ns s e1) in
      let (r, w, e3, h3) = >>=-eq-ok (attempt body) (restore nl orig) u h2 in
      let (x, y, e4, h4) = >>=-eq-ok (attempt (nl.set_ns orig)) (λ _. lift r) w h3 in
      let e : (body u).0 ≡ ok a =
        ok-injective (ap (λ (p : Result (Result A) × State). p.0) e3)
        ∙ ap (λ (p : Result A × State). p.0) h4 in
      let e' : (body u).1 ≡ w = ap (λ (p : Result (Result A) × State). p.1) e3 in
      let last : (nl.set_ns orig w).1 ≡ t =
        ap (λ (p : Result (Result (Unit {0})) × State). p.1) e4
        ∙ ap (λ (p : Result A × State). p.1) h4 in
      let current : v.current u ≡ ns =
        subst (λ z. v.current z ≡ ns) (ap (λ (p : Result (Unit {0}) × State). p.1) p)
          (kernel.set_ok ns s1 (ap (λ (p : Result (Unit {0}) × State). p.0) p)) in
      (
        u,
        w,
        current,
        λ i. (e i, e' i),
        λ n k.
            subst (λ z. v.link z n k ≡ v.link s1 n k)
              (ap (λ (p : Result (Unit {0}) × State). p.1) p) (kernel.set_links ns s1 n k)
            ∙ subst (λ z. v.link z n k ≡ v.link s n k) got ((kernel.get_ns s).links n k),
        λ n k. subst (λ z. v.link z n k ≡ v.link w n k) last (kernel.set_links orig w n k),
      )

  Has-links :
      (ns : Ns) (n : Text) (P : Link → Type 0) (s t : State)
      → ((k : Text) → v.link t ns k ≡ v.link s ns k)
      → Has v ns n P s
      → Has v ns n P t
  Has-links ns n P s t same h = record { link = h.link; there = same n ∙ h.there; holds = h.holds }

abbrev letter : Text → ℕ
letter [] = 0
letter (c ∷ _) = c

-- A bridge and a VXLAN have different names, whatever their VNIs.
pub names_differ : (vni other : ℤ) → bridge_name vni ≢ vxlan_name other
unfolding bridge_name vxlan_name
names_differ vni other e = let h : ◌≡◌ {A = ℕ} 98 118 = ap letter e in omega arith

module _ {State Ns : Type 0} (nl : Netlink State Ns) (net : Net) (v : View State Ns)
    (kernel : Kernel nl v) (keeps : AddKeeps nl) where
  -- Where SetupVNI succeeds, the router's namespace has a VRF of the name of the VNI's VRF, the
  -- bridge br<vni>, and the VXLAN vni<vni> with that bridge as its master and the settings of the
  -- VNI, whatever was there before and however the calls of the kernel behaved, and all three at the
  -- same time: setting up one does not take away another. The name of the VRF is neither that of
  -- the bridge nor that of the VXLAN, and the kernel keeps the laws `Kernel` and `AddKeeps`.
  pub setup_vni_lem :
      (params : VniParams) (s t : State)
      → params.vrf ≢ bridge_name params.vni
      → params.vrf ≢ vxlan_name params.vni
      → setup_vni nl net params s ≡ (ok tt, t)
      → (ns : Ns) × ((nl.ns_from_name params.target_ns s).0 ≡ ok ns) × IsSetUp v net params ns t
  unfolding setup_vni
  setup_vni_lem params s t differs differs' h =
      let (ns, s1, e1, h1) =
        >>=-eq-ok (replace "Failed to get network namespace" (nl.ns_from_name params.target_ns)) _ s
          h in
      let p =
        replace-eq-ok "Failed to get network namespace" (nl.ns_from_name params.target_ns) s e1 in
      let (legs, s2, _, h2) = >>=-eq-ok (setup_veth nl params.vrf ns) _ s1 h1 in
      let (_, s3, _, h3) =
        >>=-eq-ok (assign_ip_to_interface nl net (some legs.0) params.veth_host_ip) _ s2 h2 in
      let (_, s4, _, h4) =
        >>=-eq-ok (replace "could not set link up for host leg" (nl.link_set_up (some legs.0))) _ s3
          h3 in
      let (u, w, c, e, _, links) =
        in_namespace_lem nl v kernel ns (setup_router_side nl net params legs.1) s4 t tt h4 in
      let up =
        router_side_lem nl net v kernel keeps ns params differs differs'
          (names_differ params.vni params.vni) legs.1 u w c e in
      (
        ns,
        ap (λ (p : Result Ns × State). p.0) p,
        record {
          vrf = Has-links nl v kernel ns params.vrf IsVrf w t (links ns) up.vrf;
          bridge = record {
            link = up.bridge.link;
            there = links ns (bridge_name params.vni) ∙ up.bridge.there;
            holds = up.bridge.holds;
          };
          vxlan =
              Has-links nl v kernel ns (vxlan_name params.vni) (IsFor net params up.bridge.link) w t
                (links ns) up.vxlan;
        },
      )
