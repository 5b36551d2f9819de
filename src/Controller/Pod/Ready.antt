-- ===== src/Controller/Pod/Ready.antt =====
-- internal/controller/controller.go: which pods are not ready.
use pierre.Base.{
  ◌≡◌, ◌≢◌, ◌⊎◌, inl, inr, refl, false, List, [], ◌∷◌, In, here, there, Text, codes, eq_text,
  eq_text_iff, some, arith, Bool-cases,
}
use pierre.Controller.Pod.{Condition, Pod, status_of, pod_condition_status, pod_is_ready}

status_of-fails :
    (cs : List Condition) (condition : Text)
    → ((c : Condition) → In c cs → c.type ≡ condition → c.status ≢ codes "True")
    → eq_text (status_of cs condition) (codes "True") ≡ false
unfolding status_of eq_text
status_of-fails [] condition fails = refl
status_of-fails (c ∷ cs) condition fails =
    let later = status_of-fails cs condition (λ d m. fails d (there m)) in
    elim (Bool-cases (eq_text c.type condition)) [
      | inl e ↦
          let no = fails c (here refl) ((eq_text_iff c.type condition).0 e) in
          elim (Bool-cases (eq_text c.status (codes "True"))) [
            | inl t ↦ absurd (no ((eq_text_iff c.status (codes "True")).0 t))
            | inr t ↦ rw (e, t) refl
          ]
      | inr e ↦ rw (e, later) refl
    ]

-- A pod with no condition of one of the two types whose status is True is not ready.
pub pod_is_ready-false :
    (p : Pod) (condition : Text)
    → (condition ≡ codes "Ready") ⊎ (condition ≡ codes "ContainersReady")
    → ((c : Condition) → In c p.conditions → c.type ≡ condition → c.status ≢ codes "True")
    → pod_is_ready (some p) ≡ false
unfolding pod_is_ready pod_condition_status
pod_is_ready-false p condition (inl e) fails =
    ground (arith, e, status_of-fails p.conditions condition fails)
pod_is_ready-false p condition (inr e) fails =
    ground (arith, e, status_of-fails p.conditions condition fails)
