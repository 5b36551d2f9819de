-- ===== src/Tests/Node.antt =====
-- The controller on a cluster of two nodes.
use pierre.Base.{
  Bool, ◌≢◌, ◌∙◌, sym, ap, ℕ, ◌+◌, ◌≡◌, ◌↔◌, refl, In, here, there, some, List, [], ◌∷◌, ◌++◌, Text,
  codes, ok, err, errorf, wrap, arith, eq_text, ltb, Bool-cases, inl, inr,
}
use pierre.Base.Exec.{pure}
use pierre.Ipam.{vtep_ip}
use pierre.Net.{v4}
use pierre.Conversion.Frr.{api_to_frr}
use pierre.Controller.Pod.{Condition, Pod, pod_is_ready}
use pierre.Controller.Node.{Node, node_index}
use pierre.Controller.Node.Order.{Sorts, IsOrdered, DistinctTimes, insert, insertion_sort}
use mathlib.Core.List.{Permᴰ}
use mathlib.Core.List.Permᴰ
use pierre.Controller.Node.Addresses.{vteps_of_nodes}
use pierre.Controller.Reconcile.{Client, World, Reconciler, reconcile, router_pod_for_node}
use pierre.Controller.Reconcile.Effects.{Reads, reconcile_not_ready, reconcile_invalid}
use pierre.Tests.Demo.{demo_net, demo_net-Lawful, vtep_base}
use pierre.Base.{pos}
use pierre.Base.Keeps.{Keeps}
use pierre.HostNetwork.Params.{VniParams}
use pierre.HostNetwork.Cleanup.{remove_non_configured_vnis}
use pierre.HostNetwork.Home.{At, remove_non_configured_vnis_home}
use pierre.Controller.Reconcile.Thread.{CallsStay, reconcile_home}
use pierre.Tests.Resources.{underlay, red}
use pierre.Tests.Machine.{Machine, machine, machine-NsLaws, machine-LinksStay}

abbrev worker : Node
worker = record { name = codes "worker"; creation_timestamp = 10 }

abbrev master : Node
master = record { name = codes "master"; creation_timestamp = 5 }

abbrev first_code : Text → ℕ
first_code [] = 0
first_code (c ∷ t) = c

insert-Permᴰ :
    (less : Node → Node → Bool) (n : Node) (ns : List Node) → Permᴰ (insert less n ns) (n ∷ ns)
unfolding insert
insert-Permᴰ less n [] = Permᴰ.refl (n ∷ [])
insert-Permᴰ less n (m ∷ ns) = elim (Bool-cases (less m n)) [
  | inl e ↦ rw e (Permᴰ.trans (Permᴰ.cons refl (insert-Permᴰ less n ns)) (Permᴰ.swap refl refl))
  | inr e ↦ rw e (Permᴰ.refl (n ∷ m ∷ ns))
]

sort_perm : (less : Node → Node → Bool) (ns : List Node) → Permᴰ (insertion_sort less ns) ns
unfolding insertion_sort
sort_perm less [] = Permᴰ.nil
sort_perm less (n ∷ ns) =
    Permᴰ.trans (insert-Permᴰ less n (insertion_sort less ns)) (Permᴰ.cons refl (sort_perm less ns))

module _ (less : Node → Node → Bool) (key : Node → ℕ)
    (compares : (a b : Node) → less a b ≡ ltb (key a) (key b)) where
  insert-IsOrdered :
      (n : Node) (ns : List Node) → IsOrdered less ns → IsOrdered less (insert less n ns)
  unfolding insert
  insert-IsOrdered n [] h = tt
  insert-IsOrdered n (m ∷ []) h = ground (arith, compares m n, compares n m)
  insert-IsOrdered n (m ∷ k ∷ ns) (e, h) =
      ground (arith, e, h, compares m n, compares n m, compares k n, insert-IsOrdered n (k ∷ ns) h)

  sort-IsOrdered : (ns : List Node) → IsOrdered less (insertion_sort less ns)
  unfolding insertion_sort
  sort-IsOrdered [] = tt
  sort-IsOrdered (n ∷ ns) = insert-IsOrdered n (insertion_sort less ns) (sort-IsOrdered ns)

insertion_sort-Sorts : Sorts insertion_sort
insertion_sort-Sorts = record { same = sort_perm; in_order = sort-IsOrdered }

abbrev pub nodes : List Node
nodes = worker ∷ master ∷ []

-- The same nodes, as the other node's controller lists them.
abbrev nodes' : List Node
nodes' = master ∷ worker ∷ []

nodes-DistinctTimes : DistinctTimes nodes
nodes-DistinctTimes a b (here e) (here f) h = e ∙ sym f
nodes-DistinctTimes a b (there (here e)) (there (here f)) h = e ∙ sym f
nodes-DistinctTimes a b (here e) (there (here f)) h =
    let g : ◌≡◌ {A = ℕ} 10 5 =
      sym (ap (λ (n : Node). n.creation_timestamp) e)
      ∙ h
      ∙ ap (λ (n : Node). n.creation_timestamp) f in
    absurd (omega arith)
nodes-DistinctTimes a b (there (here e)) (here f) h =
    let g : ◌≡◌ {A = ℕ} 5 10 =
      sym (ap (λ (n : Node). n.creation_timestamp) e)
      ∙ h
      ∙ ap (λ (n : Node). n.creation_timestamp) f in
    absurd (omega arith)
nodes-DistinctTimes a b (here e) (there (there m)) h = elim m [ ]
nodes-DistinctTimes a b (there (here e)) (there (there m)) h = elim m [ ]
nodes-DistinctTimes a b (there (there m)) _ h = elim m [ ]

vteps_of_nodes_example :
    (vtep_ip demo_net (codes "100.65.0.0/24") (node_index insertion_sort nodes (codes "worker"))
      ≡ ok (
          demo_net.ip_string (v4 (vtep_base + node_index insertion_sort nodes (codes "worker")))
          ++ codes "/32"))
    × ((vtep_ip demo_net (codes "100.65.0.0/24") (node_index insertion_sort nodes (codes "worker"))
          ≡ vtep_ip demo_net
              (codes "100.65.0.0/24")
              (node_index insertion_sort nodes' (codes "master")))
        ↔ (codes "worker" ≡ codes "master"))
unfolding demo_net eq_text
vteps_of_nodes_example =
    vteps_of_nodes demo_net demo_net-Lawful (codes "100.65.0.0/24") (v4 vtep_base) vtep_base 24 refl
      insertion_sort insertion_sort insertion_sort-Sorts insertion_sort-Sorts nodes nodes'
      (Permᴰ.swap refl refl) nodes-DistinctTimes (omega arith) worker master (here refl)
      (there (here refl))

abbrev pub router_pod : Text → Pod
router_pod ready = record {
  name = codes "router-1";
  uid = codes "u1";
  namespace = codes "openperouter-system";
  node_name = codes "worker";
  labels = (codes "app", codes "router") ∷ [];
  conditions =
      record { type = codes "Ready"; status = ready }
      ∷ record { type = codes "ContainersReady"; status = ready }
      ∷ [];
  pod_ip = codes "10.244.0.7";
}

-- A cluster with one pod of the router and no custom resource.
abbrev pub client : Text → Client Machine
client ready = record {
  list_nodes = pure nodes;
  list_router_pods = λ node. pure (router_pod ready ∷ []);
  list_underlays = pure [];
  list_vnis = pure [];
}

client-Reads : (ready : Text) → Reads (client ready)
client-Reads ready = record {
  nodes = λ s. refl;
  pods = λ node s. refl;
  underlays = λ s. refl;
  vnis = λ s. refl;
}

abbrev pub world : Text → World Machine ℕ
world ready = record {
  client = client ready;
  runtime = record {
    list_pod_sandbox = λ uid. pure (some (codes "s1" ∷ []));
    pod_sandbox_status = λ id. pure (some (codes "{}"));
    unmarshal_namespaces = λ t. ok [];
  };
  netlink = machine;
  net = demo_net;
  sort_slice = insertion_sort;
  os_hostname = ok (codes "router");
  write_file = λ path text mode. pure tt;
  post = λ url. pure 200;
}

abbrev pub reconciler : Reconciler
reconciler = record {
  my_node = codes "worker";
  frr_config = codes "/etc/frr/frr.conf";
  reload_port = 9080;
  log_level = codes "info";
}

abbrev pub idle : Machine
idle = record { links = []; current = 0 }

not_true : (c : Condition) → In c (router_pod (codes "False")).conditions → c.status ≢ codes "True"
not_true c (here e) h =
    let g : ◌≡◌ {A = ℕ} 70 84 = ap first_code (sym (ap (λ (c : Condition). c.status) e) ∙ h) in
    absurd (omega arith)
not_true c (there (here e)) h =
    let g : ◌≡◌ {A = ℕ} 70 84 = ap first_code (sym (ap (λ (c : Condition). c.status) e) ∙ h) in
    absurd (omega arith)
not_true c (there (there m)) h = elim m [ ]

reconcile_not_ready_example : reconcile (world (codes "False")) reconciler idle ≡ (ok tt, idle)
unfolding router_pod_for_node pod_is_ready eq_text
reconcile_not_ready_example =
    reconcile_not_ready (world (codes "False")) (client-Reads (codes "False")) reconciler idle nodes
      (router_pod (codes "False")) (codes "Ready") refl refl (inl refl) (λ c m t. not_true c m)

reconcile_invalid_example :
    reconcile (world (codes "True")) reconciler idle
    ≡ (err (wrap "failed to generate the frr configuration" (errorf "no underlays defined")), idle)
unfolding router_pod_for_node pod_is_ready eq_text api_to_frr
reconcile_invalid_example =
    reconcile_invalid (world (codes "True")) (client-Reads (codes "True")) reconciler idle nodes
      (router_pod (codes "True")) [] [] (errorf "no underlays defined") refl refl refl refl refl
      refl

-- The same cluster with resources, and with a pod that is ready.
abbrev busy : World Machine ℕ
busy = record (world (codes "True")) {
  client = record (client (codes "True")) {
    list_underlays = pure (underlay ∷ []);
    list_vnis = pure (red ∷ []);
  };
}

busy-CallsStay : CallsStay busy (At (λ (m : Machine). m.current) 0)
busy-CallsStay = record {
  list_nodes = record { after = λ s i. i };
  list_router_pods = λ node. record { after = λ s i. i };
  list_underlays = record { after = λ s i. i };
  list_vnis = record { after = λ s i. i };
  list_pod_sandbox = λ uid. record { after = λ s i. i };
  pod_sandbox_status = λ id. record { after = λ s i. i };
  write_file = λ path text mode. record { after = λ s i. i };
  post = λ url. record { after = λ s i. i };
}

reconcile_home_example : Keeps (At (λ (m : Machine). m.current) 0) (reconcile busy reconciler)
unfolding machine
reconcile_home_example =
    reconcile_home busy (λ m. m.current) 0 machine-NsLaws (machine-LinksStay 0) busy-CallsStay
      (λ t. refl) reconciler

abbrev red_params : VniParams
red_params = record {
  vrf = codes "red";
  target_ns = codes "router";
  vtep_ip = codes "100.65.0.0/24";
  veth_host_ip = codes "192.169.10.1/24";
  veth_ns_ip = codes "192.169.10.0/24";
  vni = pos 100;
  vxlan_port = pos 4789;
}

remove_non_configured_vnis_home_example :
    Keeps
      (At (λ (m : Machine). m.current) 0)
      (remove_non_configured_vnis machine 1 (red_params ∷ []))
unfolding machine
remove_non_configured_vnis_home_example =
    remove_non_configured_vnis_home machine demo_net (λ m. m.current) 0 machine-NsLaws
      (machine-LinksStay 0) (λ t. refl) 1 (red_params ∷ [])
