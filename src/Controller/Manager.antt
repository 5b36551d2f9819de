-- ===== src/Controller/Manager.antt =====
-- internal/controller/controller.go, SetupWithManager and setPodNodeNameIndex: which objects are
-- watched, and which of their events are let through.
pub mod Events
use pierre.Base.{Bool, true, ◌&&◌, List, [], ◌∷◌, Text, codes}
use pierre.Base.Exec.{Exec, annotate, ◌>>◌}
use pierre.Controller.Pod.{Object, pod, node_name_index, filter_non_router_pods, filter_updates}

-- The events of controller-runtime. An update has the old and the new object.
pub data Event : Type 0 where
  create delete generic : Object → Event
  update : Object → Object → Event

-- Package predicate of controller-runtime: NewPredicateFuncs, predicate.Funcs with an UpdateFunc
-- only, and whether a predicate lets an event through.
pub record Predicates (Predicate : Type 0) : Type 0 where
  pub new_predicate_funcs : (Object → Bool) → Predicate
  pub funcs : (Object → Object → Bool) → Predicate
  pub lets : Predicate → Event → Bool

-- The types of objects that are watched.
pub data Watched : Type 0 where
  underlays pods vnis : Watched

-- What the builder of a controller is given.
pub record Builder (Predicate : Type 0) : Type 0 where
  pub for_type : Watched
  pub watches : List Watched
  pub event_filters : List Predicate
  pub name : Text

module _ {Predicate : Type 0} (predicates : Predicates Predicate) where
  open predicates use {new_predicate_funcs, funcs}

  unfoldable pub event_filters : Text → Text → List Predicate
  unfolding filter_non_router_pods filter_updates
  event_filters my_node my_namespace =
      new_predicate_funcs (filter_non_router_pods my_node my_namespace) ∷ funcs filter_updates ∷ []

-- The function that setPodNodeNameIndex registers.
unfoldable pub pod_indexer : Object → List Text
unfolding node_name_index
pod_indexer (pod p) = node_name_index p
pod_indexer _ = []

-- `index_field` is IndexField of the manager's indexer for pods, `complete` the builder's end.
module _ {State Predicate : Type 0} (predicates : Predicates Predicate)
    (index_field : Text → (Object → List Text) → Exec State Unit)
    (complete : Builder Predicate → Exec State Unit) where
  unfoldable pub set_pod_node_name_index : Exec State Unit
  unfolding pod_indexer
  set_pod_node_name_index =
      annotate "failed to set node indexer" (index_field (codes "spec.NodeName") pod_indexer)

  unfoldable pub setup_with_manager : Text → Text → Exec State Unit
  unfolding set_pod_node_name_index event_filters
  setup_with_manager my_node my_namespace = do
    set_pod_node_name_index
    complete (record {
      for_type = underlays;
      watches = pods ∷ vnis ∷ [];
      event_filters = event_filters predicates my_node my_namespace;
      name = codes "routercontroller";
    })
