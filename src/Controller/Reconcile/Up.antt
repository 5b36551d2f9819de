-- ===== src/Controller/Reconcile/Up.antt =====
-- internal/controller/controller.go: what a reconciliation that succeeds has done.
use pierre.Base.{
  arith, ap, ℕ, pos, ◌≡◌, ◌≢◌, ◌∙◌, subst, sym, true, ok, some, Text, List, [], ◌∷◌, All, Result,
}
use pierre.Base.Exec.{Exec, annotate, lift, ◌>>=◌, ◌>>◌, >>=-eq-ok, annotate-eq-ok}
use pierre.Base.Keeps.{Keeps}
use pierre.Api.{Underlay, Vni}
use pierre.Frr.Config.{Config}
use pierre.Pods.{network_namespace}
use pierre.Conversion.Frr.{api_to_frr}
use pierre.Conversion.Host.{api_to_host_config}
use pierre.Conversion.Agreement.{api_to_frr_neighbors}
use pierre.HostNetwork.Params.{UnderlayParams, VniParams}
use pierre.HostNetwork.Added.{AddKeeps}
use pierre.HostNetwork.Kernel.{View, Kernel}
use pierre.HostNetwork.Elsewhere.{Elsewhere, home-LinksStay}
use pierre.HostNetwork.Home.{At}
use pierre.HostNetwork.Joint.{IsUp}
use pierre.HostNetwork.Namespace.Restores.{NsLaws}
use pierre.Controller.Pod.{Pod, pod_is_ready}
use pierre.Controller.Node.{Node, node_index}
use pierre.Controller.Reconcile.{
  World, Reconciler, reconcile, reconcile_ready, reload_frr_config, router_pod_for_node,
  configure_interfaces,
}
use pierre.Controller.Reconcile.Effects.{Reads}
use pierre.Controller.Reconcile.Accepted.{reconcile_ready_lem}
use pierre.Controller.Reconcile.Thread.{CallsStay, reload_home, namespace_home}
use pierre.Controller.Reconcile.Interfaces.{IsDistinct, setup_interfaces_lem}

module _ {State Ns : Type 0} (w : World State Ns) (v : View State Ns) (kernel : Kernel w.netlink v)
    (keeps : AddKeeps w.netlink) (away : Elsewhere w.netlink v) (laws : NsLaws w.netlink v.current)
    (home ns : Ns) (differs : ns ≢ home) (back : (t : State) → (w.netlink.set_ns home t).0 ≡ ok tt)
    (target : Text)
    (named : (s : State) (n : Ns) → (w.netlink.ns_from_name target s).0 ≡ ok n → n ≡ ns)
    (calls : CallsStay w (At v.current home)) where
  -- The state after a function that leaves the thread at home.
  still :
      {A : Type 0} (m : Exec State A) (s t : State) (a : A)
      → Keeps (At v.current home) m
      → v.current s ≡ home
      → m s ≡ (ok a, t)
      → v.current t ≡ home
  still {A} m s t a k c e =
      subst (λ x. v.current x ≡ home) (ap (λ (p : Result A × State). p.1) e) (k.after s c)

  configure_interfaces_lem :
      (uid : Text) (index : ℕ) (u : Underlay) (vs : List Vni) (s t : State)
      → ((x : State) (a : Text) → (network_namespace w.runtime uid x).0 ≡ ok a → a ≡ target)
      → IsDistinct vs
      → v.current s ≡ home
      → configure_interfaces w uid index (u ∷ []) vs s ≡ (ok tt, t)
      → All (λ (x : Vni). IsUp v ns x.spec.vrf (pos x.spec.vni) t) vs
  unfolding configure_interfaces
  configure_interfaces_lem uid index u vs s t found d c h =
      let get = network_namespace w.runtime uid in
      let (a, s1, e1, h1) = >>=-eq-ok (annotate "failed to retrieve namespace for pod" get) _ s h in
      let e = annotate-eq-ok "failed to retrieve namespace for pod" get s e1 in
      let same = found s a (ap (λ (p : Result Text × State). p.0) e) in
      let c1 =
        still get s s1 a
          (namespace_home w v.current home laws (home-LinksStay w.netlink v kernel away home) calls
            back uid)
          c e in
      let convert = lift (api_to_host_config w.net index a (u ∷ []) vs) in
      let (params, s2, e2, h2) =
        >>=-eq-ok (annotate "failed to convert config to host configuration" convert) _ s1 h1 in
      let f = annotate-eq-ok "failed to convert config to host configuration" convert s1 e2 in
      let g : api_to_host_config w.net index target (u ∷ []) vs ≡ ok params =
        subst (λ a. api_to_host_config w.net index a (u ∷ []) vs ≡ ok params) same
          (ap (λ (p : Result (UnderlayParams × List VniParams) × State). p.0) f) in
      let c2 : v.current s2 ≡ home =
        subst (λ x. v.current x ≡ home)
          (ap (λ (p : Result (UnderlayParams × List VniParams) × State). p.1) f) c1 in
      setup_interfaces_lem w v kernel keeps away laws home ns differs back target named index u vs
        params s2 t d g c2 h2

  converted_ok :
      (file address : Text) (port index : ℕ) (level : Text) (us : List Underlay) (vs : List Vni)
      (s t : State)
      → reload_frr_config w file address port index level us vs s ≡ (ok tt, t)
      → (c : Config) × (api_to_frr w.net index us vs level ≡ ok c)
  unfolding reload_frr_config
  converted_ok file address port index level us vs s t h =
      let convert = lift (api_to_frr w.net index us vs level) in
      let (c, _, e, _) =
        >>=-eq-ok (annotate "failed to generate the frr configuration" convert) _ s h in
      (
        c,
        ap (λ (p : Result Config × State). p.0)
            (annotate-eq-ok "failed to generate the frr configuration" convert s e),
      )

  -- What holds after the update of FRR and the interfaces.
  abbrev Done : ℕ → Text → List Underlay → List Vni → State → Type 0
  Done index level us vs t =
      (c : Config) × (api_to_frr w.net index us vs level ≡ ok c)
      × All (λ (x : Vni). IsUp v ns x.spec.vrf (pos x.spec.vni) t) vs

  update_lem :
      (r : Reconciler) (index : ℕ) (p : Pod) (us : List Underlay) (vs : List Vni) (s t : State)
      → ((x : State) (a : Text) → (network_namespace w.runtime p.uid x).0 ≡ ok a → a ≡ target)
      → IsDistinct vs
      → v.current s ≡ home
      → (reload_frr_config w r.frr_config p.pod_ip r.reload_port index r.log_level us vs
            >> configure_interfaces w p.uid index us vs)
          s
        ≡ (ok tt, t)
      → Done index r.log_level us vs t
  update_lem r index p us vs s t found d c h =
      let reload =
        reload_frr_config w r.frr_config p.pod_ip r.reload_port index r.log_level us vs in
      let (_, s1, e1, h1) = >>=-eq-ok reload _ s h in
      let (config, accepted) =
        converted_ok r.frr_config p.pod_ip r.reload_port index r.log_level us vs s s1 e1 in
      let (u, one, _, _, _, _) =
        api_to_frr_neighbors w.net index us vs r.log_level config accepted in
      let c1 =
        still reload s s1 tt
          (reload_home w v.current home laws (home-LinksStay w.netlink v kernel away home) calls
            back r.frr_config p.pod_ip r.reload_port index r.log_level us vs)
          c e1 in
      let h2 : configure_interfaces w p.uid index (u ∷ []) vs s1 ≡ (ok tt, t) =
        subst (λ us. configure_interfaces w p.uid index us vs s1 ≡ (ok tt, t)) one h1 in
      (config, accepted, configure_interfaces_lem p.uid index u vs s1 t found d c1 h2)

  reconcile_ready-Done :
      (reads : Reads w.client) (r : Reconciler) (index : ℕ) (p : Pod) (us : List Underlay)
      (vs : List Vni) (s t : State)
      → (w.client.list_underlays s).0 ≡ ok us
      → (w.client.list_vnis s).0 ≡ ok vs
      → ((x : State) (a : Text) → (network_namespace w.runtime p.uid x).0 ≡ ok a → a ≡ target)
      → IsDistinct vs
      → v.current s ≡ home
      → reconcile_ready w r index p s ≡ (ok tt, t)
      → Done index r.log_level us vs t
  unfolding reconcile_ready
  reconcile_ready-Done reads r index p us vs s t eu ev found d c h =
      let update = λ (us : List Underlay) (vs : List Vni).
        (reload_frr_config w r.frr_config p.pod_ip r.reload_port index r.log_level us vs
          >> configure_interfaces w p.uid index us vs) in
      let same : (w.client.list_underlays >>= λ us. w.client.list_vnis >>= update us) s
          ≡ update us vs s =
        ground (arith, eu, ev, reads.underlays s, reads.vnis s) in
      update_lem r index p us vs s t found d c (sym same ∙ h)

  -- When a reconciliation returns without an error and the router's pod is ready, then the resources
  -- were accepted and every VNI of the cluster has its VRF and its bridge in the router's namespace,
  -- all of them at the same time. No two resources have the same VRF or the same VNI, the VNIs are of
  -- 32 bits, and no VRF has the name of a bridge or a VXLAN; the pod's namespace is always found as
  -- the same, which is not that of the thread; the thread can always be set back to its namespace, no
  -- call outside of netns moves it, the client only reads, and the kernel keeps the laws `Kernel`,
  -- `AddKeeps`, `Elsewhere` and `NsLaws`.
  pub reconcile_lem :
      (reads : Reads w.client) (r : Reconciler) (nodes : List Node) (p : Pod) (us : List Underlay)
      (vs : List Vni) (s t : State)
      → (w.client.list_nodes s).0 ≡ ok nodes
      → (router_pod_for_node w r.my_node s).0 ≡ ok p
      → pod_is_ready (some p) ≡ true
      → (w.client.list_underlays s).0 ≡ ok us
      → (w.client.list_vnis s).0 ≡ ok vs
      → ((x : State) (a : Text) → (network_namespace w.runtime p.uid x).0 ≡ ok a → a ≡ target)
      → IsDistinct vs
      → v.current s ≡ home
      → reconcile w r s ≡ (ok tt, t)
      → (c : Config) × (api_to_frr w.net (node_index w.sort_slice nodes r.my_node) us vs r.log_level
          ≡ ok c)
        × All (λ (x : Vni). IsUp v ns x.spec.vrf (pos x.spec.vni) t) vs
  reconcile_lem reads r nodes p us vs s t en ep ready eu ev found d c h =
      reconcile_ready-Done reads r (node_index w.sort_slice nodes r.my_node) p us vs s t eu ev found
        d c (sym (reconcile_ready_lem w reads r s nodes p en ep ready) ∙ h)
