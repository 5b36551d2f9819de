-- ===== src/Tests/Accepted.antt =====
-- A reconciliation of an underlay and a VNI.
use pierre.Base.{ℕ, ◌≡◌, refl, List, [], ◌∷◌, Text, codes, ok, eq_text}
use pierre.Base.Exec.{pure}
use pierre.Frr.Template.{template_config}
use pierre.HostNetwork.Params.{UnderlayParams, VniParams}
use pierre.Conversion.Host.{api_to_host_config}
use pierre.Controller.Pod.{pod_is_ready}
use pierre.Controller.Node.{node_index}
use pierre.Controller.Node.Order.{insertion_sort}
use pierre.Controller.Reconcile.{Client, World, reconcile, router_pod_for_node}
use pierre.Controller.Reconcile.Effects.{Reads}
use pierre.Controller.Reconcile.Accepted.{outside, reconcile_accepted}
use pierre.Tests.Demo.{demo_net}
use pierre.Tests.Machine.{Machine}
use pierre.Tests.Node.{nodes, router_pod, client, world, reconciler, idle}
use pierre.Tests.Resources.{underlay, red, config, converted}

abbrev full_client : Client Machine
full_client = record (client (codes "True")) {
  list_underlays = pure (underlay ∷ []);
  list_vnis = pure (red ∷ []);
}

abbrev full : World Machine ℕ
full = record (world (codes "True")) { client = full_client }

full-Reads : Reads full_client
full-Reads = record {
  nodes = λ s. refl;
  pods = λ node s. refl;
  underlays = λ s. refl;
  vnis = λ s. refl;
}

reconcile_accepted_example :
    (t : Text) × (params : Text → UnderlayParams × List VniParams) × (template_config
        (record config { hostname = codes "router" })
      ≡ ok t)
    × ((ns : Text) → api_to_host_config demo_net 1 ns (underlay ∷ []) (red ∷ []) ≡ ok (params ns))
    × (reconcile full reconciler idle
        ≡ outside full reconciler (router_pod (codes "True")) t params idle)
unfolding router_pod_for_node pod_is_ready eq_text node_index insertion_sort
reconcile_accepted_example =
    reconcile_accepted full full-Reads reconciler idle nodes (router_pod (codes "True"))
      (underlay ∷ []) (red ∷ []) config (codes "router") refl refl refl refl refl refl converted
