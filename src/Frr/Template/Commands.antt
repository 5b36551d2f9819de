-- ===== src/Frr/Template/Commands.antt =====
-- The configuration of FRR as a list of commands, and how each is written.
use Prim.Native.String.{String}
use pierre.Base.{
  ℕ, ℤ, Bool, Option, none, some, List, [], ◌∷◌, ◌++◌, Text, codes, eq_text, not, ◌==◌,
  if◌then◌else◌,
}
use pierre.Base.Decimal.{itoa, itoa_ℕ}
use pierre.Frr.Config.{
  NeighborConfig, VniConfig, UnderlayConfig, Config, must_disable_connected_check,
  activate_neighbor_for,
}

-- The texts are the names and addresses that a command has; a fixed command has none.
pub data Command : Type 0 where
  fixed : String → Command
  log_file hostname vrf network : Text → Command
  vni : ℤ → Command
  router_bgp : ℕ → Command
  router_bgp_vrf : ℕ → Text → Command
  remote_as port timers_connect : Text → ℕ → Command
  timers : Text → ℕ → ℕ → Command
  password bfd_profile : Text → Text → Command
  ebgp_multihop disable_connected_check activate allowas_in route_map_in route_map_out :
      Text → Command

abbrev pub print : Command → Text
print (fixed s) = codes s
print (log_file level) = codes "log file /etc/frr/frr.log " ++ level
print (hostname name) = codes "hostname " ++ name
print (vrf name) = codes "vrf " ++ name
print (network prefix) = codes "    network " ++ prefix
print (vni number) = codes "  vni " ++ itoa number
print (router_bgp asn) = codes "router bgp " ++ itoa_ℕ asn
print (router_bgp_vrf asn name) = codes "router bgp " ++ itoa_ℕ asn ++ codes " vrf " ++ name
print (remote_as a asn) = codes "  neighbor " ++ a ++ codes " remote-as " ++ itoa_ℕ asn
print (port a p) = codes "  neighbor " ++ a ++ codes " port " ++ itoa_ℕ p
print (timers_connect a c) = codes "  neighbor " ++ a ++ codes " timers connect " ++ itoa_ℕ c
print (timers a k h) =
    codes "  neighbor " ++ a ++ codes " timers " ++ itoa_ℕ k ++ codes " " ++ itoa_ℕ h
print (password a p) = codes "  neighbor " ++ a ++ codes " password " ++ p
print (bfd_profile a p) = codes "  neighbor " ++ a ++ codes " bfd profile " ++ p
print (ebgp_multihop a) = codes "  neighbor " ++ a ++ codes " ebgp-multihop"
print (disable_connected_check a) = codes "  neighbor " ++ a ++ codes " disable-connected-check"
print (activate a) = codes "    neighbor " ++ a ++ codes " activate"
print (allowas_in a) = codes "    neighbor " ++ a ++ codes " allowas-in origin"
print (route_map_in a) = codes "    neighbor " ++ a ++ codes " route-map allowall in"
print (route_map_out a) = codes "    neighbor " ++ a ++ codes " route-map allowall out"

abbrev pub only_if : Bool → List Command → List Command
only_if b cs = if b then cs else []

abbrev pub joined : List (List Command) → List Command
joined [] = []
joined (c ∷ cs) = c ++ joined cs

abbrev pub for_each {ℓ} : {A : Type ℓ} → (A → List Command) → List A → List Command
for_each f [] = []
for_each f (x ∷ xs) = f x ++ for_each f xs

abbrev pub if_given {ℓ} : {A : Type ℓ} → (A → Command) → Option A → List Command
if_given f none = []
if_given f (some a) = f a ∷ []

abbrev pub if_both : (ℕ → ℕ → Command) → Option ℕ → Option ℕ → List Command
if_both f (some a) (some b) = f a b ∷ []
if_both f _ _ = []

-- The address family of IPv4 or IPv6, for one neighbor.
abbrev pub activated : String → Text → List Command
activated family a = fixed family ∷ activate a ∷ fixed "  exit-address-family" ∷ []

abbrev pub session : ℕ → NeighborConfig → List Command
session router_asn n = joined (
    (remote_as n.addr n.asn ∷ [])
    ∷ only_if n.ebgp_multi_hop (ebgp_multihop n.addr ∷ [])
    ∷ if_given (port n.addr) n.port
    ∷ if_both (timers n.addr) n.keepalive_time n.hold_time
    ∷ if_given (timers_connect n.addr) n.connect_time
    ∷ only_if (not (eq_text n.password [])) (password n.addr n.password ∷ [])
    ∷ only_if (not (eq_text n.bfd_profile [])) (bfd_profile n.addr n.bfd_profile ∷ [])
    ∷ only_if (must_disable_connected_check n.ip_family router_asn n.asn n.ebgp_multi_hop)
        (disable_connected_check n.addr ∷ [])
    ∷ [])

abbrev pub family : NeighborConfig → List Command
family n = joined (
    only_if (activate_neighbor_for (codes "ipv4") n.ip_family)
      (activated "  address-family ipv4 unicast" n.addr)
    ∷ only_if (activate_neighbor_for (codes "ipv6") n.ip_family)
        (activated "  address-family ipv6 unicast" n.addr)
    ∷ [])

abbrev pub router_options : List Command
router_options =
    fixed "  no bgp ebgp-requires-policy"
    ∷ fixed "  no bgp network import-check"
    ∷ fixed "  no bgp default ipv4-unicast"
    ∷ []

-- The router of the underlay: it announces the VTEP, and the VNIs to all its neighbors.
abbrev pub underlay : UnderlayConfig → List Command
underlay u = joined (
    (router_bgp u.my_asn ∷ router_options)
    ∷ for_each (session u.my_asn) u.neighbors
    ∷ for_each family u.neighbors
    ∷ (fixed "  address-family ipv4 unicast" ∷ network u.vtep ∷ fixed "  exit-address-family" ∷ [])
    ∷ (fixed "  address-family l2vpn evpn" ∷ [])
    ∷ for_each (λ n. activate n.addr ∷ allowas_in n.addr ∷ []) u.neighbors
    ∷ (fixed "    advertise-all-vni"
        ∷ fixed "    advertise-svi-ip"
        ∷ fixed "  exit-address-family"
        ∷ [])
    ∷ [])

-- The router of a VNI: it announces the prefixes to the host, and the routes of the VRF as EVPN.
abbrev pub session_of_host : VniConfig → NeighborConfig → List Command
session_of_host v l = joined (
    (router_bgp_vrf v.asn v.vrf ∷ router_options)
    ∷ (remote_as l.addr l.asn ∷ fixed "  address-family ipv4 unicast" ∷ [])
    ∷ for_each (λ p. network p ∷ []) v.to_advertise
    ∷ (activate l.addr ∷ route_map_in l.addr ∷ route_map_out l.addr ∷ allowas_in l.addr ∷ [])
    ∷ (fixed "  exit-address-family"
        ∷ fixed "  address-family l2vpn evpn"
        ∷ fixed "    advertise ipv4 unicast"
        ∷ fixed "    advertise ipv6 unicast"
        ∷ fixed "  exit-address-family"
        ∷ fixed "exit"
        ∷ [])
    ∷ [])

abbrev pub overlay_of : VniConfig → Option NeighborConfig → List Command
overlay_of v none = []
overlay_of v (some l) = session_of_host v l

abbrev pub overlay : VniConfig → List Command
overlay v = overlay_of v v.local_neighbor

abbrev pub debugged : List Command
debugged =
    fixed "debug zebra events"
    ∷ fixed "debug zebra nht"
    ∷ fixed "debug zebra kernel"
    ∷ fixed "debug zebra rib"
    ∷ fixed "debug zebra nexthop"
    ∷ fixed "debug bgp neighbor-events"
    ∷ fixed "debug bgp updates"
    ∷ fixed "debug bgp keepalives"
    ∷ fixed "debug bgp nht"
    ∷ fixed "debug bgp zebra"
    ∷ fixed "debug bfd network"
    ∷ fixed "debug bfd peer"
    ∷ fixed "debug bfd zebra"
    ∷ []

-- Behind the first line, what stands above the routers of the VNIs. Without an AS number there is no
-- router of the underlay.
abbrev pub general : Config → List Command
general c = joined (
    (fixed "log timestamp precision 3" ∷ [])
    ∷ only_if (eq_text c.loglevel (codes "debug")) debugged
    ∷ (hostname c.hostname
        ∷ fixed "ip nht resolve-via-default"
        ∷ fixed "ipv6 nht resolve-via-default"
        ∷ [])
    ∷ for_each (λ v. vrf v.vrf ∷ vni v.vni ∷ fixed "exit-vrf" ∷ []) c.vnis
    ∷ (fixed "route-map allowall permit 1" ∷ [])
    ∷ (if c.underlay.my_asn == 0 then [] else underlay c.underlay)
    ∷ [])

abbrev pub commands : Config → List Command
commands c = log_file c.loglevel ∷ joined (general c ∷ for_each overlay c.vnis ∷ [])
