-- ===== src/IpFamily.antt =====
-- internal/ipfamily/ipfamily.go: the address families of addresses, prefixes and services.
pub mod Laws
use pierre.Base.{
  Bool, true, false, Option, none, some, List, [], ◌∷◌, map, Text, codes, Error, errorf,
  if◌then◌else◌,
}
use pierre.Net.{Net, Ip, IpNet, is_v4}

pub data Family : Type 0 where
  ipv4 ipv6 dual_stack unknown : Family

-- The string that a Family is.
unfoldable pub family_string : Family → Text
family_string ipv4 = codes "ipv4"
family_string ipv6 = codes "ipv6"
family_string dual_stack = codes "dual"
family_string unknown = codes "unknown"

-- The fields of a Kubernetes service that are read.
pub record Service : Type 0 where
  pub cluster_ips : List Text
  pub cluster_ip : Text

abbrev same : Bool → Bool → Bool
same true b = b
same false true = false
same false false = true

unfoldable pub for_address : Ip → Family
for_address ip = if is_v4 ip then ipv4 else ipv6

-- ForCIDR
unfoldable pub for_cidr : IpNet → Family
for_cidr cidr = if is_v4 cidr.ip then ipv4 else ipv6

single : Option Ip → Family × Option Error
unfolding for_address
single none = (unknown, some (errorf "IPFamilyForAddresses: Invalid address"))
single (some ip) = (for_address ip, none)

double : Option Ip → Option Ip → Family × Option Error
double (some ip1) (some ip2) =
    if same (is_v4 ip1) (is_v4 ip2)
    then (unknown, some (errorf "IPFamilyForAddresses: same address family"))
    else (dual_stack, none)
double _ _ = (unknown, some (errorf "IPFamilyForAddresses: Invalid address"))

module _ (net : Net) where
  unfoldable pub for_addresses : List Text → Family × Option Error
  unfolding single double
  for_addresses (a ∷ []) = single (net.parse_ip a)
  for_addresses (a ∷ b ∷ []) = double (net.parse_ip a) (net.parse_ip b)
  for_addresses _ = (unknown, some (errorf "IPFamilyForAddresses: invalid ips length"))

  unfoldable pub for_addresses_ips : List Ip → Family × Option Error
  unfolding for_addresses
  for_addresses_ips ips = for_addresses (map net.ip_string ips)

  unfoldable pub for_cidr_string : Text → Family
  for_cidr_string cidr = elim (net.parse_cidr cidr) [
    | none ↦ unknown
    | some (ip, _) ↦ if is_v4 ip then ipv4 else ipv6
  ]

  -- The fallback to ClusterIP, where ClusterIPs is not set.
  for_cluster_ips : List Text → Text → Family × Option Error
  unfolding for_addresses
  for_cluster_ips [] ip = for_addresses (ip ∷ [])
  for_cluster_ips (i ∷ is) ip = for_addresses (i ∷ is)

  unfoldable pub for_service : Service → Family × Option Error
  unfolding for_cluster_ips
  for_service svc = for_cluster_ips svc.cluster_ips svc.cluster_ip
