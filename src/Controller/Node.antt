-- ===== src/Controller/Node.antt =====
-- internal/controller/nodes.go: the number of a node, from which its addresses are taken.
pub mod Order
pub mod Index
pub mod Addresses
use pierre.Base.{
  Bool, ltb, ℕ, zero, suc, List, [], ◌∷◌, Text, eq_text, if◌then◌else◌, Option, none, some,
}

-- The fields of a Kubernetes node that are read; the time of creation in seconds.
pub record Node : Type 0 where
  pub name : Text
  pub creation_timestamp : ℕ

-- The loop over the sorted nodes.
unfoldable pub position : Text → List Node → Option ℕ
position node [] = none
position node (n ∷ ns) =
    let later = position node ns in
    if eq_text n.name node then some 0 else elim later [ none ↦ none | some i ↦ some (suc i) ]

unfoldable pub or_zero : Option ℕ → ℕ
or_zero none = 0
or_zero (some i) = i

-- The function that sort.Slice is given, on the two nodes that it looks up by their places.
unfoldable pub created_before : Node → Node → Bool
created_before a b = ltb a.creation_timestamp b.creation_timestamp

-- nodeIndex, on the nodes that are listed. `sort_slice` is sort.Slice, by the test which of two
-- nodes is less.
unfoldable pub node_index : ((Node → Node → Bool) → List Node → List Node) → List Node → Text → ℕ
unfolding position or_zero created_before
node_index sort_slice nodes node = or_zero (position node (sort_slice created_before nodes))
