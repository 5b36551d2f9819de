-- ===== src/Ipam.antt =====
-- internal/ipam/ipam.go: the addresses of a node's veth legs and of its VTEP.
pub mod Bounds
use pierre.Base.{
  ℕ, zero, suc, ◌+◌, ◌*◌, Option, none, some, List, [], ◌∷◌, ◌++◌, Text, codes, Result, ok, err,
  errorf, ◌>>=◌, wrapping,
}
use pierre.Net.{Net, Ip, IpNet, cidr_mask, mask_size}

pub record Veths : Type 0 where
  pub host_side : IpNet
  pub container_side : IpNet

module _ (net : Net) where
  -- `_, ipNet, err := net.ParseCIDR(pool)`
  parse_pool : Text → Result IpNet
  parse_pool pool = elim (net.parse_cidr pool) [
    | none ↦ err (errorf "failed to parse cidr")
    | some (ip, n) ↦ ok n
  ]

  cidr_elem : Text → ℕ → ℕ → Result IpNet
  unfolding parse_pool
  cidr_elem pool mask index = do
    n ← parse_pool pool
    ip ← wrapping "failed to get address" (net.host n index)
    ok (record { ip = ip; mask = cidr_mask mask 32 })

  unfoldable pub veth_ips : Text → ℕ → Result Veths
  unfolding parse_pool cidr_elem
  veth_ips pool index = do
    cidr ← parse_pool pool
    let (ones, _) = mask_size cidr.mask
    pe_side ← cidr_elem pool ones 0
    host_side ← cidr_elem pool ones (index + 1)
    ok (record { host_side = host_side; container_side = pe_side })

  -- The rounds left of the loop of sliceCIDR, at the index that it has reached.
  slice_from : IpNet → ℕ → ℕ → Result (List IpNet)
  slice_from n ip_index zero = ok []
  slice_from n ip_index (suc left) = do
    ip ← wrapping "failed to get address" (net.host n ip_index)
    rest ← slice_from n (ip_index + 1) left
    ok (record { ip = ip; mask = cidr_mask 31 32 } ∷ rest)

  -- The block `index` of `size` addresses.
  unfoldable pub slice_cidr : Text → ℕ → ℕ → Result (List IpNet)
  unfolding parse_pool slice_from
  slice_cidr pool index size = do n ← parse_pool pool; slice_from n (size * index) size

  single : List IpNet → Result Text
  single (n ∷ []) = ok (net.ip_string n.ip ++ codes "/32")
  single _ = err (errorf "vtepIP, expecting 1 ip")

  unfoldable pub vtep_ip : Text → ℕ → Result Text
  unfolding slice_cidr single
  vtep_ip pool index = do ips ← slice_cidr pool index 1; single ips

  unfoldable pub ips_in_cidr : Text → Result ℕ
  unfolding parse_pool
  ips_in_cidr pool = do n ← parse_pool pool; ok (net.address_count n)
