-- ===== src/Controller/Reconcile/Effects.antt =====
-- internal/controller/controller.go: what one reconciliation changes, and when it changes nothing.
use pierre.Base.{
  ℕ, ◌≡◌, ◌≢◌, ◌⊎◌, In, Text, codes, true, some, List, Text, ok, err, Error, arith, wrap,
}
use pierre.Api.{Underlay, Vni}
use pierre.Conversion.Frr.{api_to_frr}
use pierre.Controller.Pod.{Condition, Pod, pod_is_ready}
use pierre.Controller.Pod.Ready.{pod_is_ready-false}
use pierre.Controller.Node.{Node, node_index}
use pierre.Controller.Reconcile.{
  Client, World, Reconciler, reconcile, reconcile_ready, reload_frr_config, router_pod_for_node,
}

-- What the client lists is read from its cache: the machine is not changed.
pub record Reads {State : Type 0} (client : Client State) : Type 0 where
  pub nodes : (s : State) → (client.list_nodes s).1 ≡ s
  pub pods : (node : Text) (s : State) → (client.list_router_pods node s).1 ≡ s
  pub underlays : (s : State) → (client.list_underlays s).1 ≡ s
  pub vnis : (s : State) → (client.list_vnis s).1 ≡ s

module _ {State Ns : Type 0} (w : World State Ns) (reads : Reads w.client) (r : Reconciler)
    (s : State) where
  pub pod_keeps : (router_pod_for_node w r.my_node s).1 ≡ s
  unfolding router_pod_for_node
  pod_keeps = ground (arith, reads.pods r.my_node s)

  -- While the router's pod has no condition Ready of the status True, or none ContainersReady, a
  -- reconciliation succeeds and changes nothing, with a client that only reads, and where the nodes
  -- and one pod could be listed.
  pub reconcile_not_ready :
      (nodes : List Node) (p : Pod) (condition : Text)
      → (w.client.list_nodes s).0 ≡ ok nodes
      → (router_pod_for_node w r.my_node s).0 ≡ ok p
      → (condition ≡ codes "Ready") ⊎ (condition ≡ codes "ContainersReady")
      → ((c : Condition) → In c p.conditions → c.type ≡ condition → c.status ≢ codes "True")
      → reconcile w r s ≡ (ok tt, s)
  unfolding reconcile
  reconcile_not_ready nodes p condition e f which fails =
      ground (arith, e, f, pod_is_ready-false p condition which fails, reads.nodes s, pod_keeps)

  reload_invalid :
      (file address : Text) (index : ℕ) (us : List Underlay) (vs : List Vni) (e : Error)
      → api_to_frr w.net index us vs r.log_level ≡ err e
      → reload_frr_config w file address r.reload_port index r.log_level us vs s
        ≡ (err (wrap "failed to generate the frr configuration" e), s)
  unfolding reload_frr_config
  reload_invalid file address index us vs x e = ground (arith, e)

  reconcile_ready_invalid :
      (index : ℕ) (p : Pod) (us : List Underlay) (vs : List Vni) (e : Error)
      → (w.client.list_underlays s).0 ≡ ok us
      → (w.client.list_vnis s).0 ≡ ok vs
      → api_to_frr w.net index us vs r.log_level ≡ err e
      → reconcile_ready w r index p s ≡ (err (wrap "failed to generate the frr configuration" e), s)
  unfolding reconcile_ready
  reconcile_ready_invalid index p us vs x h k c = ground (
    arith,
    h,
    k,
    reads.underlays s,
    reads.vnis s,
    reload_invalid r.frr_config p.pod_ip index us vs x c,
  )

  -- Resources that cannot be converted, such as none or two underlays, lead to an error, before
  -- FRR's file, the reloader, the runtime or an interface is touched.
  pub reconcile_invalid :
      (nodes : List Node) (p : Pod) (us : List Underlay) (vs : List Vni) (e : Error)
      → (w.client.list_nodes s).0 ≡ ok nodes
      → (router_pod_for_node w r.my_node s).0 ≡ ok p
      → pod_is_ready (some p) ≡ true
      → (w.client.list_underlays s).0 ≡ ok us
      → (w.client.list_vnis s).0 ≡ ok vs
      → api_to_frr w.net (node_index w.sort_slice nodes r.my_node) us vs r.log_level ≡ err e
      → reconcile w r s ≡ (err (wrap "failed to generate the frr configuration" e), s)
  unfolding reconcile
  reconcile_invalid nodes p us vs x e f g h k c = ground (
    arith,
    e,
    f,
    g,
    reads.nodes s,
    pod_keeps,
    reconcile_ready_invalid (node_index w.sort_slice nodes r.my_node) p us vs x h k c,
  )
