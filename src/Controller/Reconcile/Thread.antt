-- ===== src/Controller/Reconcile/Thread.antt =====
-- internal/controller: a reconciliation leaves its thread in the network namespace that it was in.
use pierre.Base.{
  ℕ, ◌≡◌, Text, codes, ◌++◌, List, some, Result, ok, err, errorf, ◌==◌, Result-cases, inl, inr,
}
use pierre.Base.Exec.{Exec, lift, pure, raise, annotate}
use pierre.Base.Keeps.{
  Keeps, Keeps-bind, Keeps-lift, Keeps-annotate, Keeps-replace, Keeps-each, Keeps-if,
}
use pierre.Frr.Config.{Config}
use pierre.Frr.Template.{template_config}
use pierre.Frr.Apply.{apply_config, generate_and_reload_config_file}
use pierre.FrrConfig.{updater_for_address, status_ok}
use pierre.Pods.{pod_sandbox_id, network_namespace, only, answered, non_empty, network_namespace_of}
use pierre.Api.{Underlay, Vni}
use pierre.Conversion.Frr.{api_to_frr}
use pierre.Conversion.Host.{api_to_host_config}
use pierre.HostNetwork.Params.{UnderlayParams, VniParams}
use pierre.HostNetwork.Namespace.Restores.{NsLaws}
use pierre.HostNetwork.LinksStay.{LinksStay}
use pierre.HostNetwork.Home.{At, setup_vni_home, setup_underlay_home}
use pierre.Controller.Pod.{Pod, pod_is_ready, only_pod}
use pierre.Controller.Reconcile.{
  World, Reconciler, fetch_node_index, router_pod_for_node, reload_frr_config, setup_interfaces,
  configure_interfaces, reconcile_ready, reconcile,
}

-- What the program relies on of the other calls: the client of Kubernetes, the container runtime,
-- the file of FRR and the post to the reloader leave the thread in its namespace.
pub record CallsStay {State Ns : Type 0} (w : World State Ns) (I : State → Type 0) : Type 0 where
  pub list_nodes : Keeps I w.client.list_nodes
  pub list_router_pods : (node : Text) → Keeps I (w.client.list_router_pods node)
  pub list_underlays : Keeps I w.client.list_underlays
  pub list_vnis : Keeps I w.client.list_vnis
  pub list_pod_sandbox : (uid : Text) → Keeps I (w.runtime.list_pod_sandbox uid)
  pub pod_sandbox_status : (id : Text) → Keeps I (w.runtime.pod_sandbox_status id)
  pub write_file : (path text : Text) (mode : ℕ) → Keeps I (w.write_file path text mode)
  pub post : (url : Text) → Keeps I (w.post url)

module _ {State Ns : Type 0} (w : World State Ns) (current : State → Ns) (home : Ns)
    (laws : NsLaws w.netlink current) (stay : LinksStay w.netlink (At current home))
    (calls : CallsStay w (At current home))
    (back : (t : State) → (w.netlink.set_ns home t).0 ≡ ok tt) where
  updater_home :
      (address file config : Text)
      → Keeps (At current home) (updater_for_address w.write_file w.post address file config)
  unfolding updater_for_address
  updater_home address file config =
      Keeps-bind _ _ (Keeps-replace _ _ (calls.write_file file config 384)) (λ _.
        Keeps-bind _ _ (Keeps-annotate _ _ (calls.post (codes "http://" ++ address))) (λ status.
          Keeps-if (status == status_ok) (pure tt) (raise (errorf "failed to reload, status"))
            (Keeps-lift (ok tt)) (Keeps-lift (err (errorf "failed to reload, status")))))

  generate_home :
      (updater : Text → Exec State Unit) (config : Config)
      → ((text : Text) → Keeps (At current home) (updater text))
      → Keeps (At current home) (generate_and_reload_config_file updater config)
  unfolding generate_and_reload_config_file
  generate_home updater config k = record {
    after = λ s i. elim (Result-cases (template_config config)) [
      | inl (text, e) ↦ rw (e, generate_and_reload_config_file) ((k text).after s i)
      | inr (x, e) ↦ rw (e, generate_and_reload_config_file) i
    ];
  }

  apply_home :
      (hostname : Result Text) (updater : Text → Exec State Unit) (config : Config)
      → ((text : Text) → Keeps (At current home) (updater text))
      → Keeps (At current home) (apply_config updater hostname config)
  unfolding apply_config
  apply_home (ok name) updater config k =
      generate_home updater (record config { hostname = name }) k
  apply_home (err x) updater config k = Keeps-lift (err x)

  pub reload_home :
      (file address : Text) (port index : ℕ) (level : Text) (us : List Underlay) (vs : List Vni)
      → Keeps (At current home) (reload_frr_config w file address port index level us vs)
  unfolding reload_frr_config
  reload_home file address port index level us vs =
      Keeps-bind _ _ (Keeps-annotate _ _ (Keeps-lift (api_to_frr w.net index us vs level)))
        (λ config.
          Keeps-annotate _ _ (apply_home w.os_hostname _ config (λ text. updater_home _ file text)))

  pub namespace_home : (uid : Text) → Keeps (At current home) (network_namespace w.runtime uid)
  unfolding network_namespace pod_sandbox_id
  namespace_home uid =
      Keeps-bind _ _
        (Keeps-bind _ _ (Keeps-annotate _ _ (calls.list_pod_sandbox uid))
          (λ ids. Keeps-lift (only ids)))
        (λ id. Keeps-bind _ _ (Keeps-annotate _ _ (calls.pod_sandbox_status id)) (λ status.
          Keeps-bind (lift (answered status)) _ (Keeps-lift (answered status)) (λ info.
            Keeps-bind
              (annotate "failed to Unmarshal podSandboxStatus.Info"
                (lift (w.runtime.unmarshal_namespaces info)))
              _ (Keeps-annotate _ _ (Keeps-lift (w.runtime.unmarshal_namespaces info)))
              (λ ns. Keeps-lift (non_empty (network_namespace_of ns))))))

  interfaces_home :
      (params : UnderlayParams × List VniParams)
      → Keeps (At current home) (setup_interfaces w params)
  unfolding setup_interfaces
  interfaces_home (underlay, vnis) =
      Keeps-bind _ _
        (Keeps-annotate _ _
          (setup_underlay_home w.netlink w.net current home laws stay back underlay))
        (λ _.
          Keeps-each _ vnis (λ v.
            Keeps-annotate _ _ (setup_vni_home w.netlink w.net current home laws stay back v)))

  configure_home :
      (uid : Text) (index : ℕ) (us : List Underlay) (vs : List Vni)
      → Keeps (At current home) (configure_interfaces w uid index us vs)
  unfolding configure_interfaces
  configure_home uid index us vs = Keeps-bind _ _ (Keeps-annotate _ _ (namespace_home uid)) (λ ns.
      Keeps-bind _ _ (Keeps-annotate _ _ (Keeps-lift (api_to_host_config w.net index ns us vs)))
        (λ params. interfaces_home params))

  ready_home :
      (r : Reconciler) (index : ℕ) (p : Pod) → Keeps (At current home) (reconcile_ready w r index p)
  unfolding reconcile_ready
  ready_home r index p = Keeps-bind _ _ calls.list_underlays (λ us.
      Keeps-bind _ _ calls.list_vnis (λ vs.
        Keeps-bind _ _ (reload_home r.frr_config p.pod_ip r.reload_port index r.log_level us vs)
          (λ _. configure_home p.uid index us vs)))

  -- A reconciliation leaves the thread in the namespace that it was in, whatever fails, provided
  -- that the thread can always be set back to this namespace, and that no call but netns.Set moves
  -- it.
  pub reconcile_home : (r : Reconciler) → Keeps (At current home) (reconcile w r)
  unfolding reconcile fetch_node_index router_pod_for_node
  reconcile_home r =
      Keeps-bind _ _ (Keeps-bind _ _ (Keeps-annotate _ _ calls.list_nodes) (λ nodes. Keeps-lift _))
        (λ index.
          Keeps-bind _ _
            (Keeps-bind _ _ (Keeps-replace _ _ (calls.list_router_pods r.my_node))
              (λ pods. Keeps-lift (only_pod pods)))
            (λ p.
              Keeps-if (pod_is_ready (some p)) (reconcile_ready w r index p) (pure tt)
                (ready_home r index p) (Keeps-lift (ok tt))))
