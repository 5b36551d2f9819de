-- ===== src/Controller/Node/Order.antt =====
-- internal/controller/nodes.go: what sort.Slice does to the nodes, and when all controllers get one
-- order.
use pierre.Base.{
  ◌∙◌, ap, sym, ℕ, ◌≡◌, refl, Bool, false, ltb, List, [], ◌∷◌, In, here, there, length, suc, arith,
  if◌then◌else◌,
}
use mathlib.Core.List.{Permᴰ}
use mathlib.Core.Path.{ap₂}
use mathlib.Core.List.Permᴰ
use pierre.Controller.Node.{Node, created_before}

-- No node is less than the one before it.
abbrev pub IsOrdered : (Node → Node → Bool) → List Node → Type 0
IsOrdered less [] = Unit
IsOrdered less (n ∷ []) = Unit
IsOrdered less (n ∷ m ∷ ns) = (less m n ≡ false) × IsOrdered less (m ∷ ns)

-- What the program relies on of sort.Slice: the nodes are the same, and they are in order, where the
-- test compares a number of each node. The order of nodes that compare equal is left open.
pub record Sorts (sort_slice : (Node → Node → Bool) → List Node → List Node) : Type 0 where
  pub same : (less : Node → Node → Bool) (ns : List Node) → Permᴰ (sort_slice less ns) ns
  pub in_order :
      (less : Node → Node → Bool) (key : Node → ℕ)
      → ((a b : Node) → less a b ≡ ltb (key a) (key b))
      → (ns : List Node) → IsOrdered less (sort_slice less ns)

pub In-Permᴰ : {ns ms : List Node} (n : Node) → Permᴰ ns ms → In n ns → In n ms
In-Permᴰ n Permᴰ.nil m = m
In-Permᴰ n (Permᴰ.cons e p) (here f) = here (f ∙ e)
In-Permᴰ n (Permᴰ.cons e p) (there m) = there (In-Permᴰ n p m)
In-Permᴰ n (Permᴰ.swap e f) (here g) = there (here (g ∙ e))
In-Permᴰ n (Permᴰ.swap e f) (there (here g)) = here (g ∙ f)
In-Permᴰ n (Permᴰ.swap e f) (there (there m)) = there (there m)
In-Permᴰ n (Permᴰ.trans p q) m = In-Permᴰ n q (In-Permᴰ n p m)

pub length-Permᴰ : {ns ms : List Node} → Permᴰ ns ms → length ns ≡ length ms
length-Permᴰ Permᴰ.nil = refl
length-Permᴰ (Permᴰ.cons e p) = ap suc (length-Permᴰ p)
length-Permᴰ (Permᴰ.swap e f) = refl
length-Permᴰ (Permᴰ.trans p q) = length-Permᴰ p ∙ length-Permᴰ q

-- A sort that is written out, to compare others with.
unfoldable pub insert : (Node → Node → Bool) → Node → List Node → List Node
insert less n [] = n ∷ []
insert less n (m ∷ ms) = let rest = insert less n ms in if less m n then m ∷ rest else n ∷ m ∷ ms

unfoldable pub insertion_sort : (Node → Node → Bool) → List Node → List Node
unfolding insert
insertion_sort less [] = []
insertion_sort less (n ∷ ns) = insert less n (insertion_sort less ns)

-- Nodes that were created at one time are one node.
abbrev pub DistinctTimes : List Node → Type 0
DistinctTimes ns =
    (a b : Node) → In a ns → In b ns → a.creation_timestamp ≡ b.creation_timestamp → a ≡ b

insert_comm :
    (a b : Node) (ns : List Node)
    → (a.creation_timestamp ≡ b.creation_timestamp → a ≡ b)
    → insert created_before a (insert created_before b ns)
      ≡ insert created_before b (insert created_before a ns)
unfolding insert created_before
insert_comm a b [] h = ground (arith, h)
insert_comm a b (n ∷ ns) h = ground (arith, h, insert_comm a b ns h)

insertion_sort-Permᴰ :
    {ns ms : List Node}
    → Permᴰ ns ms
    → DistinctTimes ns
    → insertion_sort created_before ns ≡ insertion_sort created_before ms
unfolding insertion_sort
insertion_sort-Permᴰ Permᴰ.nil d = refl
insertion_sort-Permᴰ (Permᴰ.cons e p) d =
    ap₂ (insert created_before) e (insertion_sort-Permᴰ p (λ a b m n. d a b (there m) (there n)))
insertion_sort-Permᴰ (Permᴰ.swap {a = a} {b = b} {l = l} e f) d =
    insert_comm _ _ (insertion_sort created_before l) (d _ _ (here refl) (there (here refl)))
    ∙ ap₂
        (λ x y. insert created_before x (insert created_before y (insertion_sort created_before l)))
        f e
insertion_sort-Permᴰ (Permᴰ.trans p q) d =
    insertion_sort-Permᴰ p d
    ∙ insertion_sort-Permᴰ q
        (λ a b m n. d a b (In-Permᴰ a (Permᴰ.symm p) m) (In-Permᴰ b (Permᴰ.symm p) n))

insertion_sort-IsOrdered :
    (ns : List Node) → IsOrdered created_before ns → insertion_sort created_before ns ≡ ns
unfolding insertion_sort insert
insertion_sort-IsOrdered [] h = refl
insertion_sort-IsOrdered (n ∷ []) h = refl
insertion_sort-IsOrdered (n ∷ m ∷ ns) (e, h) =
    ap (insert created_before n) (insertion_sort-IsOrdered (m ∷ ns) h) ∙ rw e refl

created_before_lem :
    (a b : Node) → created_before a b ≡ ltb a.creation_timestamp b.creation_timestamp
unfolding created_before
created_before_lem a b = refl

-- Two sorts of the same nodes, in whatever order they were listed, give one list if no two nodes
-- were created at one time.
pub sort_slice_unique :
    (sort sort' : (Node → Node → Bool) → List Node → List Node) (ns ms : List Node)
    → Sorts sort
    → Sorts sort'
    → Permᴰ ns ms
    → DistinctTimes ns
    → sort created_before ns ≡ sort' created_before ms
sort_slice_unique sort sort' ns ms sorts sorts' p d =
    let key = λ (n : Node). n.creation_timestamp in
    let xs = sort created_before ns in
    let ys = sort' created_before ms in
    let q = sorts.same created_before ns in
    sym (insertion_sort-IsOrdered xs (sorts.in_order created_before key created_before_lem ns))
    ∙ insertion_sort-Permᴰ
        (Permᴰ.trans q (Permᴰ.trans p (Permᴰ.symm (sorts'.same created_before ms))))
        (λ a b m n. d a b (In-Permᴰ a q m) (In-Permᴰ b q n))
    ∙ insertion_sort-IsOrdered ys (sorts'.in_order created_before key created_before_lem ms)
