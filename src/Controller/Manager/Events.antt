-- ===== src/Controller/Manager/Events.antt =====
-- internal/controller/controller.go: which events lead to a reconciliation.
use pierre.Base.{
  Bool, ◌&&◌, List, [], ◌∷◌, ◌≡◌, ◌≢◌, ◌↔◌, true, some, Text, codes, arith, eq_text_iff,
}
use pierre.Controller.Pod.{
  Pod, Object, pod_is_ready, pod, node, other, filter_non_router_pods, filter_updates, label,
}
use pierre.Controller.Manager.{Event, create, delete, generic, update, Predicates, event_filters}

-- The object that an event is about.
abbrev pub subject : Event → Object
subject (create o) = o
subject (delete o) = o
subject (generic o) = o
subject (update old new) = new

-- The pod is the router's, in the namespace and on the node of the controller.
pub record IsRouter (my_node my_namespace : Text) (p : Pod) : Type 0 where
  pub on_node : p.node_name ≡ my_node
  pub in_namespace : p.namespace ≡ my_namespace
  pub labelled : label p.labels (codes "app") ≡ codes "router"

-- An object that is not another pod.
abbrev pub IsOurs : Text → Text → Object → Type 0
IsOurs my_node my_namespace (pod p) = IsRouter my_node my_namespace p
IsOurs my_node my_namespace _ = Unit

-- The changes that matter. The two objects of an update have one type.
abbrev pub Matters : Object → Object → Type 0
Matters old node = ⊥
Matters (pod o) (pod p) = pod_is_ready (some o) ≢ pod_is_ready (some p)
Matters _ _ = Unit

abbrev pub Relevant : Text → Text → Event → Type 0
Relevant my_node my_namespace (create o) = IsOurs my_node my_namespace o
Relevant my_node my_namespace (delete o) = IsOurs my_node my_namespace o
Relevant my_node my_namespace (generic o) = IsOurs my_node my_namespace o
Relevant my_node my_namespace (update old new) = IsOurs my_node my_namespace new × Matters old new

-- What controller-runtime says of its predicates: of an update, NewPredicateFuncs tests the new
-- object, and with an UpdateFunc only all other events are let through.
pub record Documented {Predicate : Type 0} (predicates : Predicates Predicate) : Type 0 where
  pub tests :
      (f : Object → Bool) (e : Event)
      → predicates.lets (predicates.new_predicate_funcs f) e ≡ f (subject e)
  pub updates :
      (f : Object → Object → Bool) (old new : Object)
      → predicates.lets (predicates.funcs f) (update old new) ≡ f old new
  pub others :
      (f : Object → Object → Bool) (o : Object)
      → (predicates.lets (predicates.funcs f) (create o) ≡ true)
        × (predicates.lets (predicates.funcs f) (delete o) ≡ true)
        × (predicates.lets (predicates.funcs f) (generic o) ≡ true)

-- The event is let through by all filters of a controller.
unfoldable pub passes : {Predicate : Type 0} → Predicates Predicate → List Predicate → Event → Bool
passes predicates [] e = true
passes predicates (p ∷ ps) e = predicates.lets p e && passes predicates ps e

module _ (my_node my_namespace : Text) where
  IsOurs-iff :
      (o : Object)
      → (filter_non_router_pods my_node my_namespace o ≡ true) ↔ IsOurs my_node my_namespace o
  unfolding filter_non_router_pods
  IsOurs-iff node = ground arith
  IsOurs-iff other = ground arith
  IsOurs-iff (pod p) = ground (
    arith,
    eq_text_iff p.node_name my_node,
    eq_text_iff p.namespace my_namespace,
    eq_text_iff (label p.labels (codes "app")) (codes "router"),
  )

  Matters-iff : (old new : Object) → (filter_updates old new ≡ true) ↔ Matters old new
  unfolding filter_updates
  Matters-iff old node = ground arith
  Matters-iff (pod o) (pod p) = ground arith
  Matters-iff node (pod p) = ground arith
  Matters-iff other (pod p) = ground arith
  Matters-iff (pod o) other = ground arith
  Matters-iff node other = ground arith
  Matters-iff other other = ground arith

module _ {Predicate : Type 0} (predicates : Predicates Predicate)
    (documented : Documented predicates) where
  -- An event passes the filters of the controller exactly if it is relevant: a pod must be the
  -- router's, on the node and in the namespace of the controller; an update of a node is never
  -- relevant, that of a pod only if its readiness changed; all else is. The predicates of
  -- controller-runtime do what it says of them.
  pub passes_iff :
      (my_node my_namespace : Text) (e : Event)
      → (passes predicates (event_filters predicates my_node my_namespace) e ≡ true)
        ↔ Relevant my_node my_namespace e
  unfolding passes event_filters
  passes_iff my_node my_namespace (create o) = ground (
    arith,
    IsOurs-iff my_node my_namespace o,
    documented.tests (filter_non_router_pods my_node my_namespace) (create o),
    documented.others filter_updates o,
  )
  passes_iff my_node my_namespace (delete o) = ground (
    arith,
    IsOurs-iff my_node my_namespace o,
    documented.tests (filter_non_router_pods my_node my_namespace) (delete o),
    documented.others filter_updates o,
  )
  passes_iff my_node my_namespace (generic o) = ground (
    arith,
    IsOurs-iff my_node my_namespace o,
    documented.tests (filter_non_router_pods my_node my_namespace) (generic o),
    documented.others filter_updates o,
  )
  passes_iff my_node my_namespace (update old new) = ground (
    arith,
    IsOurs-iff my_node my_namespace new,
    Matters-iff my_node my_namespace old new,
    documented.tests (filter_non_router_pods my_node my_namespace) (update old new),
    documented.updates filter_updates old new,
  )
