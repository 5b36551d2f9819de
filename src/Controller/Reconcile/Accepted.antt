-- ===== src/Controller/Reconcile/Accepted.antt =====
-- internal/controller/controller.go: a reconciliation of resources that APItoFRR accepts.
use pierre.Base.{ℕ, ◌≡◌, ap, ◌∙◌, true, some, List, Text, codes, ◌++◌, Result, ok, arith}
use pierre.Base.Decimal.{itoa_ℕ}
use pierre.Base.Exec.{Exec, annotate, lift, ◌>>=◌, ◌>>◌}
use pierre.Api.{Underlay, Vni}
use pierre.Frr.Config.{Config}
use pierre.Frr.Template.{template_config}
use pierre.Frr.Apply.{apply_config}
use pierre.FrrConfig.{updater_for_address}
use pierre.Pods.{network_namespace}
use pierre.HostNetwork.Params.{UnderlayParams, VniParams}
use pierre.Conversion.Frr.{api_to_frr}
use pierre.Conversion.Host.{api_to_host_config}
use pierre.Conversion.Agreement.{api_to_host_config_agrees}
use pierre.Conversion.Rendered.{apply_config_converted}
use pierre.Controller.Pod.{Pod, pod_is_ready}
use pierre.Controller.Node.{Node, node_index}
use pierre.Controller.Reconcile.{
  World, Reconciler, reconcile, reconcile_ready, reload_frr_config, router_pod_for_node,
  configure_interfaces, setup_interfaces,
}
use pierre.Controller.Reconcile.Effects.{Reads, pod_keeps}

module _ {State Ns : Type 0} (w : World State Ns) where
  -- What is left to do once the text of FRR's configuration and the parameters are known: the
  -- update of FRR, then the search for the namespace, then the interfaces.
  abbrev pub outside :
      Reconciler → Pod → Text → (Text → UnderlayParams × List VniParams) → Exec State Unit
  outside r p text params = do
    annotate "failed to update the frr configuration" (
        updater_for_address w.write_file w.post (p.pod_ip ++ codes ":" ++ itoa_ℕ r.reload_port)
          r.frr_config text)
    ns ← annotate "failed to retrieve namespace for pod" (network_namespace w.runtime p.uid)
    setup_interfaces w (params ns)

  module _ (index : ℕ) (us : List Underlay) (vs : List Vni) where
    configured :
        (uid : Text) (params : Text → UnderlayParams × List VniParams)
        → ((ns : Text) → api_to_host_config w.net index ns us vs ≡ ok (params ns))
        → configure_interfaces w uid index us vs ≡ (
            annotate "failed to retrieve namespace for pod" (network_namespace w.runtime uid)
            >>= λ ns. setup_interfaces w (params ns))
    unfolding configure_interfaces
    configured uid params e =
        ap
          (λ (f : Text → Result (UnderlayParams × List VniParams)).
            annotate "failed to retrieve namespace for pod" (network_namespace w.runtime uid)
            >>= λ ns.
                (annotate "failed to convert config to host configuration" (lift (f ns)) >>= λ p.
                setup_interfaces w p))
          (λ i ns. e ns i)

    reloaded :
        (r : Reconciler) (address h t : Text) (c : Config) (s : State)
        → api_to_frr w.net index us vs r.log_level ≡ ok c
        → w.os_hostname ≡ ok h
        → (let url = address ++ codes ":" ++ itoa_ℕ r.reload_port in
            let updater = updater_for_address w.write_file w.post url r.frr_config in
            apply_config updater (ok h) c s ≡ updater t s)
        → reload_frr_config w r.frr_config address r.reload_port index r.log_level us vs s
          ≡ annotate "failed to update the frr configuration"
              (updater_for_address w.write_file w.post
                (address ++ codes ":" ++ itoa_ℕ r.reload_port)
                r.frr_config
                t)
              s
    unfolding reload_frr_config
    reloaded r address h t c s e f g = ground (arith, e, f, g)

  module _ (reads : Reads w.client) (r : Reconciler) (s : State) where
    ready_lem :
        (index : ℕ) (p : Pod) (us : List Underlay) (vs : List Vni) (t : Text)
        (params : Text → UnderlayParams × List VniParams)
        → (w.client.list_underlays s).0 ≡ ok us
        → (w.client.list_vnis s).0 ≡ ok vs
        → reload_frr_config w r.frr_config p.pod_ip r.reload_port index r.log_level us vs s
          ≡ annotate "failed to update the frr configuration"
              (updater_for_address w.write_file w.post
                (p.pod_ip ++ codes ":" ++ itoa_ℕ r.reload_port)
                r.frr_config
                t)
              s
        → configure_interfaces w p.uid index us vs ≡ (
            annotate "failed to retrieve namespace for pod" (network_namespace w.runtime p.uid)
            >>= λ ns. setup_interfaces w (params ns))
        → reconcile_ready w r index p s ≡ outside r p t params s
    unfolding reconcile_ready
    ready_lem index p us vs t params eu ev f g =
        let conf = configure_interfaces w p.uid index us vs in
        ground (arith, eu, ev, reads.underlays s, reads.vnis s)
        ∙ ap (λ (x : Result (Unit {0}) × State). ((λ (_ : State). x) >> conf) s) f
        ∙ ap
            (λ (n : Exec State Unit).
              (annotate "failed to update the frr configuration" (
                    updater_for_address w.write_file w.post
                      (p.pod_ip ++ codes ":" ++ itoa_ℕ r.reload_port) r.frr_config t)
                  >> n)
                s)
            g

    pub reconcile_ready_lem :
        (nodes : List Node) (p : Pod)
        → (w.client.list_nodes s).0 ≡ ok nodes
        → (router_pod_for_node w r.my_node s).0 ≡ ok p
        → pod_is_ready (some p) ≡ true
        → reconcile w r s ≡ reconcile_ready w r (node_index w.sort_slice nodes r.my_node) p s
    unfolding reconcile
    reconcile_ready_lem nodes p e f g =
        ground (arith, e, f, g, reads.nodes s, pod_keeps w reads r s)

    -- Once APItoFRR accepts the resources, no conversion and no rendering can fail any more: FRR's
    -- configuration is rendered, APItoHostConfig has parameters for every namespace, and what the
    -- reconciliation does is to update FRR with that text, then to look for the namespace, and then
    -- to set up the interfaces with those parameters; it fails where these calls fail. The router's
    -- pod is ready, the client only reads, and its calls and os.Hostname succeed.
    pub reconcile_accepted :
        (nodes : List Node) (p : Pod) (us : List Underlay) (vs : List Vni) (c : Config) (h : Text)
        → (w.client.list_nodes s).0 ≡ ok nodes
        → (router_pod_for_node w r.my_node s).0 ≡ ok p
        → pod_is_ready (some p) ≡ true
        → (w.client.list_underlays s).0 ≡ ok us
        → (w.client.list_vnis s).0 ≡ ok vs
        → w.os_hostname ≡ ok h
        → api_to_frr w.net (node_index w.sort_slice nodes r.my_node) us vs r.log_level ≡ ok c
        → (t : Text) × (params : Text → UnderlayParams × List VniParams) × (template_config
              (record c { hostname = h })
            ≡ ok t)
          × ((ns : Text)
              → api_to_host_config w.net (node_index w.sort_slice nodes r.my_node) ns us vs
                ≡ ok (params ns))
          × (reconcile w r s ≡ outside r p t params s)
    reconcile_accepted nodes p us vs c h en ep ready eu ev eh ec =
        let index = node_index w.sort_slice nodes r.my_node in
        let url = p.pod_ip ++ codes ":" ++ itoa_ℕ r.reload_port in
        let (t, rendered, applied) =
          apply_config_converted w.net index us vs r.log_level c h
            (updater_for_address w.write_file w.post url r.frr_config) s ec in
        let agree =
          λ (ns : Text). api_to_host_config_agrees w.net index ns us vs r.log_level c ec in
        let params : Text → UnderlayParams × List VniParams = λ ns. ((agree ns).0, (agree ns).1) in
        (
          t,
          params,
          rendered,
          λ ns. (agree ns).2,
          reconcile_ready_lem nodes p en ep ready
              ∙ ready_lem index p us vs t params eu ev
                  (reloaded index us vs r p.pod_ip h t c s ec eh applied)
                  (configured index us vs p.uid params (λ ns. (agree ns).2)),
        )
