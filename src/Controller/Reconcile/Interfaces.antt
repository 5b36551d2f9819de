-- ===== src/Controller/Reconcile/Interfaces.antt =====
-- internal/controller/host_config.go: after configureInterfaces has succeeded, the interfaces of all
-- VNIs are there.
use pierre.Base.{
  ap, ℕ, ℤ, pos, ◌<◌, ◌≡◌, ◌≢◌, ◌∙◌, subst, sym, ok, Text, List, [], ◌∷◌, All, All₂, All₂-map,
  traverse, traverse-All₂, Result, or_else, >>=-eq-ok, ok-injective, arith,
}
use pierre.Base.Exec
use pierre.Base.Exec.{Exec, annotate, each}
use pierre.Net.{Net}
use pierre.Api.{Underlay, Vni}
use pierre.Ipam.{vtep_ip, veth_ips}
use pierre.HostNetwork.Params.{UnderlayParams, VniParams}
use pierre.HostNetwork.Names.{bridge_name, vxlan_name, names_injective}
use pierre.HostNetwork.Added.{AddKeeps}
use pierre.HostNetwork.Kernel.{View, Kernel}
use pierre.HostNetwork.Elsewhere.{Elsewhere, home-LinksStay}
use pierre.HostNetwork.Namespace.Restores.{NsLaws}
use pierre.HostNetwork.Home.{setup_underlay_home}
use pierre.HostNetwork.Underlay.{setup_underlay}
use pierre.HostNetwork.Setup.Vni.{names_differ}
use pierre.HostNetwork.Joint.{IsJoint, IsUp, Unused}
use pierre.HostNetwork.Joint.Sequence.{setup_all_lem}
use pierre.Conversion.Host.{vni_to_host, host_from_underlay, api_to_host_config}
use pierre.Controller.Reconcile.{World, setup_interfaces}

-- The name is that of no bridge and of no VXLAN.
abbrev pub IsPlain : Text → Type 0
IsPlain name = (vni : ℤ) → (name ≢ bridge_name vni) × (name ≢ vxlan_name vni)

-- The VRFs have plain names, the VNIs are of 32 bits, and no two resources have the same.
abbrev pub IsDistinct : List Vni → Type 0
IsDistinct [] = Unit
IsDistinct (x ∷ xs) =
    IsPlain x.spec.vrf
    × (x.spec.vni < 4294967296)
    × All (λ (y : Vni). (x.spec.vrf ≢ y.spec.vrf) × (x.spec.vni ≢ y.spec.vni)) xs
    × IsDistinct xs

-- The parameters are those of the resource.
record IsOf (target : Text) (x : Vni) (p : VniParams) : Type 0 where
  vrf : p.vrf ≡ x.spec.vrf
  vni : p.vni ≡ pos x.spec.vni
  target_eq : p.target_ns ≡ target

vni_to_host_lem :
    (net : Net) (index : ℕ) (target vtep : Text) (x : Vni) (p : VniParams)
    → vni_to_host net index target vtep x ≡ ok p
    → IsOf target x p
unfolding vni_to_host
vni_to_host_lem net index target vtep x p h =
    let (veths, _, g) =
      >>=-eq-ok (or_else "failed to get veth ips" (veth_ips net x.spec.local_cidr index)) _ h in
    let e = ok-injective g in
    record {
      vrf = ap (λ (q : VniParams). q.vrf) (sym e);
      vni = ap (λ (q : VniParams). q.vni) (sym e);
      target_eq = ap (λ (q : VniParams). q.target_ns) (sym e);
    }

converted :
    (net : Net) (index : ℕ) (target : Text) (u : Underlay) (xs : List Vni)
    (params : UnderlayParams × List VniParams)
    → api_to_host_config net index target (u ∷ []) xs ≡ ok params
    → All₂ (IsOf target) xs params.1
unfolding api_to_host_config host_from_underlay
converted net index target u [] params h =
    subst (λ p. All₂ (IsOf target) [] p.1) (ok-injective h) tt
converted net index target u (x ∷ xs) params h =
    let (vtep, _, h1) =
      >>=-eq-ok (or_else "failed to get vtep ip" (vtep_ip net u.spec.vtep_cidr index)) _ h in
    let (ps, e, h2) = >>=-eq-ok (traverse (vni_to_host net index target vtep) (x ∷ xs)) _ h1 in
    subst (λ (p : UnderlayParams × List VniParams). All₂ (IsOf target) (x ∷ xs) p.1)
      (ok-injective h2)
      (All₂-map (vni_to_host_lem net index target vtep) (x ∷ xs) ps
        (traverse-All₂ (vni_to_host net index target vtep) (x ∷ xs) ps e))

pos_injective : (a b : ℕ) → pos a ≡ pos b → a ≡ b
pos_injective a b e = cc

-- The names of one VNI are none that another VNI uses.
apart :
    (target : Text) (x y : Vni) (p q : VniParams)
    → IsOf target x p
    → IsOf target y q
    → IsPlain x.spec.vrf
    → IsPlain y.spec.vrf
    → x.spec.vni < 4294967296
    → y.spec.vni < 4294967296
    → (x.spec.vrf ≢ y.spec.vrf) × (x.spec.vni ≢ y.spec.vni)
    → ((p.vrf ≢ q.vrf) × (p.vrf ≢ bridge_name q.vni) × (p.vrf ≢ vxlan_name q.vni))
      × ((bridge_name p.vni ≢ q.vrf)
          × (bridge_name p.vni ≢ bridge_name q.vni)
          × (bridge_name p.vni ≢ vxlan_name q.vni))
apart target x y p q f g plain plain' small small' (d, d') = (
  (
    λ e. d (sym f.vrf ∙ e ∙ g.vrf),
    λ e. (plain q.vni).0 (sym f.vrf ∙ e),
    λ e. (plain q.vni).1 (sym f.vrf ∙ e),
  ),
  (
    λ e. (plain' p.vni).0 (sym g.vrf ∙ sym e),
    λ e.
        let same = ap bridge_name (sym f.vni) ∙ e ∙ ap bridge_name g.vni in
        d' (
          pos_injective x.spec.vni y.spec.vni (
            (names_injective (pos x.spec.vni) (pos y.spec.vni) [] [] (omega arith)
                (omega arith)).0.0
              same)),
    names_differ p.vni q.vni,
  ),
)

unused :
    (target : Text) (x : Vni) (p : VniParams) (ys : List Vni) (qs : List VniParams)
    → IsOf target x p
    → IsPlain x.spec.vrf
    → x.spec.vni < 4294967296
    → All (λ (y : Vni). (x.spec.vrf ≢ y.spec.vrf) × (x.spec.vni ≢ y.spec.vni)) ys
    → IsDistinct ys
    → All₂ (IsOf target) ys qs
    → Unused qs p.vrf × Unused qs (bridge_name p.vni)
unused target x p [] [] f plain small d h k = (tt, tt)
unused target x p [] (q ∷ qs) f plain small d h k = elim k [ ]
unused target x p (y ∷ ys) [] f plain small d h k = elim k [ ]
unused target x p (y ∷ ys) (q ∷ qs) f plain small (d, ds) (plain', small', _, h) (g, k) =
    let (a, b) = apart target x y p q f g plain plain' small small' d in
    let (a_rest, b_rest) = unused target x p ys qs f plain small ds h k in
    ((a, a_rest), (b, b_rest))

converted-IsJoint :
    (target : Text) (xs : List Vni) (ps : List VniParams)
    → IsDistinct xs
    → All₂ (IsOf target) xs ps
    → IsJoint target ps
converted-IsJoint target [] [] h k = tt
converted-IsJoint target [] (p ∷ ps) h k = elim k [ ]
converted-IsJoint target (x ∷ xs) [] h k = elim k [ ]
converted-IsJoint target (x ∷ xs) (p ∷ ps) (plain, small, d, h) (f, k) =
    let (a, b) = unused target x p xs ps f plain small d h k in
    (
      f.target_eq,
      λ e. (plain p.vni).0 (sym f.vrf ∙ e),
      λ e. (plain p.vni).1 (sym f.vrf ∙ e),
      a,
      b,
      converted-IsJoint target xs ps h k,
    )

module _ {State Ns : Type 0} (w : World State Ns) (v : View State Ns) (kernel : Kernel w.netlink v)
    (keeps : AddKeeps w.netlink) (away : Elsewhere w.netlink v) (laws : NsLaws w.netlink v.current)
    (home ns : Ns) (differs : ns ≢ home) (back : (t : State) → (w.netlink.set_ns home t).0 ≡ ok tt)
    (target : Text)
    (named : (s : State) (n : Ns) → (w.netlink.ns_from_name target s).0 ≡ ok n → n ≡ ns) where
  converted-IsUp :
      (xs : List Vni) (ps : List VniParams) (t : State)
      → All₂ (IsOf target) xs ps
      → All (λ (p : VniParams). IsUp v ns p.vrf p.vni t) ps
      → All (λ (x : Vni). IsUp v ns x.spec.vrf (pos x.spec.vni) t) xs
  converted-IsUp [] [] t k h = tt
  converted-IsUp [] (p ∷ ps) t k h = elim k [ ]
  converted-IsUp (x ∷ xs) [] t k h = elim k [ ]
  converted-IsUp (x ∷ xs) (p ∷ ps) t (f, k) (u, h) = (
    subst (λ n. IsUp v ns x.spec.vrf n t) f.vni (subst (λ n. IsUp v ns n p.vni t) f.vrf u),
    converted-IsUp xs ps t k h,
  )

  -- When configureInterfaces has set up the interfaces of all VNIs without an error, every VNI has its
  -- VRF and its bridge in the router's namespace at the same time, under the names that the
  -- resources give: what is set up for one VNI is not taken away for another, neither by the
  -- deletions in the router's namespace nor by those on the host, whatever was there before. The
  -- parameters come from APItoHostConfig; no two resources have the same VRF or the same VNI, the
  -- VNIs are of 32 bits, and no VRF has the name of a bridge or a VXLAN of this program; the thread
  -- starts in a namespace other than the router's and can always be set back to it, the router's
  -- namespace is always found as the same, and the kernel keeps the laws `Kernel`, `AddKeeps`,
  -- `Elsewhere` and `NsLaws`.
  pub setup_interfaces_lem :
      (index : ℕ) (u : Underlay) (xs : List Vni) (params : UnderlayParams × List VniParams)
      (s t : State)
      → IsDistinct xs
      → api_to_host_config w.net index target (u ∷ []) xs ≡ ok params
      → v.current s ≡ home
      → setup_interfaces w params s ≡ (ok tt, t)
      → All (λ (x : Vni). IsUp v ns x.spec.vrf (pos x.spec.vni) t) xs
  unfolding setup_interfaces
  setup_interfaces_lem index u xs params s t d e c h =
      let of = converted w.net index target u xs params e in
      let (_, m, e1, h1) =
        Exec.>>=-eq-ok
          (annotate "failed to setup underlay" (setup_underlay w.netlink w.net params.0)) _ s h in
      let f =
        Exec.annotate-eq-ok "failed to setup underlay" (setup_underlay w.netlink w.net params.0) s
          e1 in
      let c' : v.current m ≡ home =
        subst (λ x. v.current x ≡ home) (ap (λ (p : Result (Unit {0}) × State). p.1) f)
          ((setup_underlay_home w.netlink w.net v.current home laws
              (home-LinksStay w.netlink v kernel away home) back params.0).after
            s c) in
      converted-IsUp xs params.1 t of (
        setup_all_lem w.netlink w.net v kernel keeps away laws home ns differs back target named
          params.1 m t (converted-IsJoint target xs params.1 d of) c' h1)
