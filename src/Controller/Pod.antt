-- ===== src/Controller/Pod.antt =====
-- internal/controller: pods, their readiness, and which events lead to a reconciliation
-- (controller.go); the router's pod of a node (routerpod.go).
pub mod Ready
use pierre.Base.{
  Bool, true, false, not, ◌&&◌, Option, none, some, List, [], ◌∷◌, Text, codes, eq_text, errorf,
  Result, ok, err, if◌then◌else◌,
}

pub record Condition : Type 0 where
  pub type : Text
  pub status : Text

-- The fields of a Kubernetes pod that are read.
pub record Pod : Type 0 where
  pub name : Text
  pub uid : Text
  pub namespace : Text
  pub node_name : Text
  pub labels : List (Text × Text)
  pub conditions : List Condition
  pub pod_ip : Text

-- The loop over the conditions.
unfoldable pub status_of : List Condition → Text → Text
status_of [] condition = codes "Unknown"
status_of (c ∷ cs) condition =
    let later = status_of cs condition in if eq_text c.type condition then c.status else later

-- podConditionStatus; `none` is a nil pod.
unfoldable pub pod_condition_status : Option Pod → Text → Text
unfolding status_of
pod_condition_status none condition = codes "Unknown"
pod_condition_status (some p) condition = status_of p.conditions condition

unfoldable pub pod_is_ready : Option Pod → Bool
unfolding pod_condition_status
pod_is_ready p =
    eq_text (pod_condition_status p (codes "Ready")) (codes "True")
    && eq_text (pod_condition_status p (codes "ContainersReady")) (codes "True")

-- What routerPodForNode makes of the pods that are listed.
unfoldable pub only_pod : List Pod → Result Pod
only_pod (p ∷ []) = ok p
only_pod (p ∷ q ∷ ps) = err (errorf "more than one router pod found for node")
only_pod [] = err (errorf "no router pods found for node")

-- The function of the index "spec.NodeName".
unfoldable pub node_name_index : Pod → List Text
node_name_index p = if eq_text p.node_name [] then [] else p.node_name ∷ []

-- The objects that are watched, by their Go types.
pub data Object : Type 0 where
  pod : Pod → Object
  node : Object
  other : Object

-- The value of a key, or the empty string.
unfoldable pub label : List (Text × Text) → Text → Text
label [] key = []
label ((k, v) ∷ rest) key = let later = label rest key in if eq_text k key then v else later

-- The predicate filterNonRouterPods.
unfoldable pub filter_non_router_pods : Text → Text → Object → Bool
unfolding label
filter_non_router_pods my_node my_namespace (pod o) =
    if not (eq_text o.node_name my_node)
    then false
    else if not (eq_text o.namespace my_namespace)
    then false
    else eq_text (label o.labels (codes "app")) (codes "router")
filter_non_router_pods my_node my_namespace _ = true

-- The predicate filterUpdates, on the old and the new object of an update. Both have one type.
unfoldable pub filter_updates : Object → Object → Bool
unfolding pod_is_ready
filter_updates old node = false
filter_updates (pod o) (pod p) =
    let before = pod_is_ready (some o) in
    let after = pod_is_ready (some p) in if before then not after else after
filter_updates _ _ = true
