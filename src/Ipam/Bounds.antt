-- ===== src/Ipam/Bounds.antt =====
-- internal/ipam/ipam.go: which addresses the pools give, and when they give none.
use native.Mathlib.Nat.{one-le-pow}
use mathlib.Core.List.{append_cancel_right}
use pierre.Base.{
  ℕ, ◌+◌, ◌-◌, ◌^◌, ◌%◌, ◌≤◌, ◌<◌, ◌≡◌, ◌≢◌, ◌↔◌, refl, some, ◌++◌, Text, codes, ok, err, Error,
  wrap, arith,
}
use pierre.Net.{Net, Lawful, Ip, v4, IpNet, cidr_mask, net_string, v6}
use pierre.Ipam.{Veths, veth_ips, vtep_ip}

-- An IPv4 prefix, by its network address.
abbrev pub prefix : ℕ → ℕ → IpNet
prefix base ones = record { ip = v4 base; mask = some (record { ones = ones; bits = 32 }) }

pow_pos : (k : ℕ) → 0 < 2 ^ k
pow_pos k = one-le-pow k 2 (omega arith)

module _ (net : Net) (laws : Lawful net) (pool : Text) {ip : Ip} (base ones : ℕ)
    (parsed : net.parse_cidr pool ≡ some (ip, prefix base ones)) where
  facts : (ones ≤ 32) × (base % 2 ^ (32 - ones) ≡ 0) × (base + 2 ^ (32 - ones) ≤ 2 ^ 32)
  facts = laws.parse_cidr_v4 pool ip base ones 32 parsed refl

  host : (num : ℕ) → num < 2 ^ (32 - ones) → net.host (prefix base ones) num ≡ ok (v4 (base + num))
  host num room = laws.host_v4 base ones num facts.0 facts.1 room

  mask_fits : cidr_mask ones 32 ≡ some (record { ones = ones; bits = 32 })
  mask_fits = ground (arith, facts)

  -- For a node that an IPv4 pool has room for, the router's leg takes the network address and the
  -- node's leg the address `index + 1`, both with the length of the prefix.
  pub veth_ips_v4 :
      (index : ℕ)
      → index + 1 < 2 ^ (32 - ones)
      → veth_ips net pool index
        ≡ ok (record {
          host_side = prefix (base + (index + 1)) ones;
          container_side = prefix base ones;
        })
  unfolding veth_ips
  veth_ips_v4 index room =
      ground (arith, parsed, host 0 (omega arith), host (index + 1) room, mask_fits)

  -- A node that an IPv4 pool has no room for gets no addresses, but an error.
  pub veth_ips_full :
      (index : ℕ) → 2 ^ (32 - ones) ≤ index + 1 → (e : Error) × (veth_ips net pool index ≡ err e)
  unfolding veth_ips
  veth_ips_full index full =
      let (e, p) = laws.host_v4_full base ones (index + 1) full in
      (
        wrap "failed to get address" e,
        ground (arith, parsed, host 0 (ground (arith, pow_pos (32 - ones))), mask_fits, p),
      )

  -- A node that an IPv4 pool has room for gets the address of its number, as a /32.
  pub vtep_ip_v4 :
      (index : ℕ)
      → index < 2 ^ (32 - ones)
      → vtep_ip net pool index ≡ ok (net.ip_string (v4 (base + index)) ++ codes "/32")
  unfolding vtep_ip
  vtep_ip_v4 index room = ground (arith, parsed, host index room)

  -- A node that an IPv4 pool has no room for gets no VTEP, but an error.
  vtep_ip_full :
      (index : ℕ) → 2 ^ (32 - ones) ≤ index → (e : Error) × (vtep_ip net pool index ≡ err e)
  unfolding vtep_ip
  vtep_ip_full index full =
      let (e, p) = laws.host_v4_full base ones index full in
      (wrap "failed to get address" e, ground (arith, parsed, p))

  -- Two nodes that an IPv4 pool has room for and that get one VTEP address are one node.
  pub vtep_ip-injective :
      (i j : ℕ)
      → i < 2 ^ (32 - ones)
      → j < 2 ^ (32 - ones)
      → vtep_ip net pool i ≡ vtep_ip net pool j
      → i ≡ j
  vtep_ip-injective i j p q e =
      let same : net.ip_string (v4 (base + i)) ++ codes "/32"
          ≡ net.ip_string (v4 (base + j)) ++ codes "/32" =
        cc (vtep_ip_v4 i p, vtep_ip_v4 j q) in
      omega (
        arith,
        facts,
        laws.ip_string_v4 (base + i) (base + j) (omega (arith, facts)) (omega (arith, facts)) (
            append_cancel_right (net.ip_string (v4 (base + i))) (net.ip_string (v4 (base + j)))
              (codes "/32") same),
      )

  -- For two nodes that an IPv4 pool has room for: the address of a node's leg is never that of
  -- the router's leg, the router's legs are the same, and the nodes' legs are the same only if the
  -- nodes are.
  pub veth_ips_distinct :
      (i j : ℕ) {a b : Veths}
      → i + 1 < 2 ^ (32 - ones)
      → j + 1 < 2 ^ (32 - ones)
      → veth_ips net pool i ≡ ok a
      → veth_ips net pool j ≡ ok b
      → (a.host_side ≢ a.container_side)
        × (a.container_side ≡ b.container_side)
        × ((a.host_side ≡ b.host_side) ↔ (i ≡ j))
  veth_ips_distinct i j p q e f = ground (arith, veth_ips_v4 i p, veth_ips_v4 j q)

-- For a pool of IPv6 addresses with room for the node, both legs get a mask that does not go with their addresses, and are
-- printed as `<nil>`, whatever the length of the prefix.
pub veth_ips_v6 :
    (net : Net) (pool : Text) (ip : Ip) (base ones a b index : ℕ)
    → net.parse_cidr pool
      ≡ some (ip, record { ip = v6 base; mask = some (record { ones = ones; bits = 128 }) })
    → net.host (record { ip = v6 base; mask = some (record { ones = ones; bits = 128 }) }) 0
      ≡ ok (v6 a)
    → net.host
        (record { ip = v6 base; mask = some (record { ones = ones; bits = 128 }) })
        (index + 1)
      ≡ ok (v6 b)
    → (veths : Veths) × (veth_ips net pool index ≡ ok veths)
      × (net_string net veths.host_side ≡ codes "<nil>")
      × (net_string net veths.container_side ≡ codes "<nil>")
unfolding veth_ips net_string
veth_ips_v6 net pool ip base ones a b index parsed first next = (
  record {
    host_side = record { ip = v6 b; mask = cidr_mask ones 32 };
    container_side = record { ip = v6 a; mask = cidr_mask ones 32 };
  },
  ground (arith, parsed, first, next),
  ground arith,
  ground arith,
)
