-- ===== src/Tests/Watch.antt =====
-- The events of a pod that becomes ready.
use pierre.Base.{Bool, true, ◌≡◌, ◌↔◌, refl, codes}
use pierre.Controller.Pod.{Object, pod}
use pierre.Controller.Manager.{Event, Predicates, update, event_filters}
use pierre.Controller.Manager.Events.{Relevant, Documented, subject, passes, passes_iff}
use pierre.Tests.Node.{router_pod}

-- The predicates are functions on events.
abbrev pub Predicate : Type 0
Predicate = Event → Bool

update_func : (Object → Object → Bool) → Predicate
update_func f (update old new) = f old new
update_func f _ = true

unfoldable pub predicates : Predicates Predicate
unfolding update_func
predicates = record {
  new_predicate_funcs = λ f e. f (subject e);
  funcs = update_func;
  lets = λ p. p;
}

predicates-Documented : Documented predicates
unfolding predicates update_func
predicates-Documented = record {
  tests = λ f e. refl;
  updates = λ f old new. refl;
  others = λ f o. (refl, refl, refl);
}

passes_iff_example :
    (passes predicates
        (event_filters predicates (codes "worker") (codes "openperouter-system"))
        (update (pod (router_pod (codes "False"))) (pod (router_pod (codes "True"))))
      ≡ true)
    ↔ Relevant
        (codes "worker")
        (codes "openperouter-system")
        (update (pod (router_pod (codes "False"))) (pod (router_pod (codes "True"))))
passes_iff_example =
    passes_iff predicates predicates-Documented (codes "worker") (codes "openperouter-system")
      (update (pod (router_pod (codes "False"))) (pod (router_pod (codes "True"))))
