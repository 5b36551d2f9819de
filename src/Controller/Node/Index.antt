-- ===== src/Controller/Node/Index.antt =====
-- internal/controller/nodes.go: nodes that are listed have different numbers.
use pierre.Base.{
  Bool, ◌∙◌, ap, sym, ℕ, zero, suc, ◌<◌, ◌≡◌, ◌≢◌, refl, List, [], ◌∷◌, Text, eq_text, eq_text_iff,
  Option, none, some, In, here, there, length, get_elem?, arith, Bool-cases, inl, inr,
}
use mathlib.Core.List.{Permᴰ}
use mathlib.Core.List.Permᴰ
use pierre.Controller.Node.{Node, created_before, position, or_zero, node_index}
use pierre.Controller.Node.Order.{Sorts, DistinctTimes, sort_slice_unique, In-Permᴰ, length-Permᴰ}

-- All controllers count the nodes alike, if no two nodes were created at one time.
pub node_index_agrees :
    (sort sort' : (Node → Node → Bool) → List Node → List Node) (ns ms : List Node)
    → Sorts sort
    → Sorts sort'
    → Permᴰ ns ms
    → DistinctTimes ns
    → (name : Text) → node_index sort ns name ≡ node_index sort' ms name
unfolding node_index
node_index_agrees sort sort' ns ms sorts sorts' p d name =
    ap (λ l. or_zero (position name l)) (sort_slice_unique sort sort' ns ms sorts sorts' p d)

position-found : (ns : List Node) (n : Node) → In n ns → (i : ℕ) × (position n.name ns ≡ some i)
unfolding position
position-found [] n m = elim m [ ]
position-found (k ∷ ns) n (here e) =
    let same : k.name ≡ n.name = ap (λ (j : Node). j.name) (sym e) in
    (0, ground (arith, eq_text_iff k.name n.name, same))
position-found (k ∷ ns) n (there m) = elim (Bool-cases (eq_text k.name n.name)) [
  | inl e ↦ (0, ground (arith, e))
  | inr e ↦ let (i, p) = position-found ns n m in (suc i, ground (arith, e, p))
]

position_lem :
    (name : Text) (ns : List Node) (i : ℕ)
    → position name ns ≡ some i
    → (n : Node) × (i < length ns) × (get_elem? ns i ≡ some n) × (n.name ≡ name)
unfolding position
position_lem name [] i h = cc
position_lem name (k ∷ ns) zero h = elim (Bool-cases (eq_text k.name name)) [
  | inl e ↦ (k, omega arith, refl, (eq_text_iff k.name name).0 e)
  | inr e ↦ ground (arith, e)
]
position_lem name (k ∷ ns) (suc i) h = elim (Bool-cases (eq_text k.name name)) [
  | inl e ↦ ground (arith, e)
  | inr e ↦
      let p : position name ns ≡ some i = ground (arith, e) in
      let (n, a, b, c) = position_lem name ns i p in (n, omega arith, b, c)
]

position_absent :
    (name : Text) (ns : List Node)
    → ((n : Node) → In n ns → n.name ≢ name)
    → position name ns ≡ none
unfolding position
position_absent name [] h = refl
position_absent name (k ∷ ns) h = ground (
  arith,
  eq_text_iff k.name name,
  h k (here refl),
  position_absent name ns (λ n m. h n (there m)),
)

module _ (sort : (Node → Node → Bool) → List Node → List Node) (sorts : Sorts sort)
    (nodes : List Node) where
  listed :
      (n : Node)
      → In n nodes
      → (i : ℕ) × (node_index sort nodes n.name ≡ i)
        × (position n.name (sort created_before nodes) ≡ some i)
  unfolding node_index
  listed n m =
      let (i, p) =
        position-found (sort created_before nodes) n
          (In-Permᴰ n (Permᴰ.symm (sorts.same created_before nodes)) m) in
      (i, ground (arith, p), p)

  -- The number of a node that is listed is below the count of the nodes.
  pub node_index-lt-length : (n : Node) → In n nodes → node_index sort nodes n.name < length nodes
  node_index-lt-length n m =
      let (i, e, p) = listed n m in
      let (k, a, b, c) = position_lem n.name (sort created_before nodes) i p in
      omega (arith, e, length-Permᴰ (sorts.same created_before nodes))

  -- Listed nodes with one number have one name.
  pub node_index-injective :
      (n m : Node)
      → In n nodes
      → In m nodes
      → node_index sort nodes n.name ≡ node_index sort nodes m.name
      → n.name ≡ m.name
  node_index-injective n m p q e =
      let (i, ei, pi) = listed n p in
      let (j, ej, pj) = listed m q in
      let (k, ak, bk, ck) = position_lem n.name (sort created_before nodes) i pi in
      let (l, al, bl, cl) = position_lem m.name (sort created_before nodes) j pj in
      let same : i ≡ j = sym ei ∙ e ∙ ej in
      let same_node : some k ≡ some l =
        sym bk ∙ ap (get_elem? (sort created_before nodes)) same ∙ bl in
      sym ck ∙ ap (λ (o : Option Node). elim o [ none ↦ n.name | some x ↦ x.name ]) same_node ∙ cl

  -- A node that is not listed gets the number 0 with no error, which is that of the first node in
  -- the order of creation.
  pub node_index_absent :
      (name : Text) (first : Node) (rest : List Node)
      → sort created_before nodes ≡ first ∷ rest
      → ((n : Node) → In n (sort created_before nodes) → n.name ≢ name)
      → (node_index sort nodes name ≡ 0) × (node_index sort nodes first.name ≡ 0)
  unfolding node_index position
  node_index_absent name first rest e absent = (
    ground (arith, position_absent name (sort created_before nodes) absent),
    rw e (ground (arith, eq_text_iff first.name first.name)),
  )
