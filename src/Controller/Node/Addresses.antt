-- ===== src/Controller/Node/Addresses.antt =====
-- internal/controller/nodes.go and internal/ipam/ipam.go: the VTEP addresses of the nodes.
use mathlib.Core.List.{Permᴰ}
use pierre.Base.{
  Bool, ◌∙◌, sym, ℕ, ◌+◌, ◌-◌, ◌^◌, ◌≤◌, ◌<◌, ◌≡◌, ◌↔◌, ap, ◌++◌, some, List, In, length, Text,
  codes, ok, arith,
}
use pierre.Net.{Net, Lawful, Ip, v4}
use pierre.Ipam.{vtep_ip}
use pierre.Ipam.Bounds.{prefix, vtep_ip_v4, vtep_ip-injective}
use pierre.Controller.Node.{Node, node_index}
use pierre.Controller.Node.Order.{Sorts, DistinctTimes}
use pierre.Controller.Node.Index.{node_index_agrees, node_index-lt-length, node_index-injective}

-- In a cluster with no more nodes than an IPv4 pool has addresses, and where no two nodes were
-- created at one time, the controllers of two nodes, each with its own sort and with the nodes in
-- the order in which they were listed to it, compute a VTEP for their nodes, and these are one VTEP
-- exactly if the nodes have one name.
pub vteps_of_nodes :
    (net : Net) (laws : Lawful net) (pool : Text) (ip : Ip) (base ones : ℕ)
    → net.parse_cidr pool ≡ some (ip, prefix base ones)
    → (sort sort' : (Node → Node → Bool) → List Node → List Node) → Sorts sort
    → Sorts sort'
    → (nodes nodes' : List Node) → Permᴰ nodes nodes'
    → DistinctTimes nodes
    → length nodes ≤ 2 ^ (32 - ones)
    → (n m : Node) → In n nodes
    → In m nodes
    → (vtep_ip net pool (node_index sort nodes n.name)
        ≡ ok (net.ip_string (v4 (base + node_index sort nodes n.name)) ++ codes "/32"))
      × ((vtep_ip net pool (node_index sort nodes n.name)
            ≡ vtep_ip net pool (node_index sort' nodes' m.name))
          ↔ (n.name ≡ m.name))
vteps_of_nodes net laws pool ip base ones parsed sort sort' sorts sorts' nodes nodes' perm times
      room n m p q =
    let agree =
      λ (name : Text). node_index_agrees sort sort' nodes nodes' sorts sorts' perm times name in
    let i = node_index sort nodes n.name in
    let j = node_index sort nodes m.name in
    let bi = node_index-lt-length sort sorts nodes n p in
    let bj = node_index-lt-length sort sorts nodes m q in
    let ri : i < 2 ^ (32 - ones) = omega arith in
    let rj : j < 2 ^ (32 - ones) = omega arith in
    (
      vtep_ip_v4 net laws pool base ones parsed i ri,
      (
        λ e. node_index-injective sort sorts nodes n m p q (
            vtep_ip-injective net laws pool base ones parsed i j ri rj
              (e ∙ ap (vtep_ip net pool) (sym (agree m.name)))),
        λ e. ap (vtep_ip net pool) (ap (node_index sort nodes) e ∙ agree m.name),
      ),
    )
