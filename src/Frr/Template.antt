-- ===== src/Frr/Template.antt =====
-- internal/frr/config.go, templateConfig: what text/template makes of the templates of
-- internal/frr/templates, in the order of their texts and actions. A marker `-` beside an action
-- has taken the white space away that it trims.
pub mod Prints
pub mod Commands
pub mod Plain
pub mod Lines
pub mod Read
use pierre.Base.{
  ℕ, Option, none, some, List, [], ◌∷◌, ◌++◌, Text, codes, eq_text, not, ◌==◌, Result, ok, err,
  errorf, ◌>>=◌, if◌then◌else◌,
}
use pierre.Base.Decimal.{itoa, itoa_ℕ}
use pierre.Frr.Config.{
  NeighborConfig, VniConfig, UnderlayConfig, Config, must_disable_connected_check,
  activate_neighbor_for,
}

-- What is written piece by piece.
abbrev pub written : List Text → Text
written [] = []
written (t ∷ ts) = t ++ written ts

-- `{{ range }}`
abbrev pub ranged {ℓ} : {A : Type ℓ} → (A → Text) → List A → Text
ranged f [] = []
ranged f (x ∷ xs) = f x ++ ranged f xs

-- `{{ if }}` of a pointer: the text for what it points to.
abbrev pub given {ℓ} : {A : Type ℓ} → (A → Text) → Option A → Text
given f none = []
given f (some a) = f a

-- `{{ if and }}` of two pointers.
abbrev pub given_both : (ℕ → ℕ → Text) → Option ℕ → Option ℕ → Text
given_both f (some a) (some b) = f a b
given_both f _ _ = []

-- neighborsession.tmpl
unfoldable pub neighbor_session : NeighborConfig → ℕ → Text
neighbor_session n router_asn = written (
    (codes "\n  neighbor " ++ n.addr ++ codes " remote-as " ++ itoa_ℕ n.asn)
    ∷ (if n.ebgp_multi_hop then codes "\n  neighbor " ++ n.addr ++ codes " ebgp-multihop" else [])
    ∷ (codes "\n  "
        ++ given (λ p. codes "neighbor " ++ n.addr ++ codes " port " ++ itoa_ℕ p) n.port)
    ∷ codes "\n  "
    ∷ given_both
        (λ k h.
          codes "\n  neighbor " ++ n.addr ++ codes " timers " ++ itoa_ℕ k ++ codes " " ++ itoa_ℕ h)
        n.keepalive_time n.hold_time
    ∷ given (λ c. codes "\n  neighbor " ++ n.addr ++ codes " timers connect " ++ itoa_ℕ c)
        n.connect_time
    ∷ (codes "\n  "
        ++ (if eq_text n.password []
            then []
            else codes "neighbor " ++ n.addr ++ codes " password " ++ n.password))
    ∷ (if not (eq_text n.bfd_profile [])
        then codes "\n  neighbor " ++ n.addr ++ codes " bfd profile " ++ n.bfd_profile
        else [])
    ∷ (if must_disable_connected_check n.ip_family router_asn n.asn n.ebgp_multi_hop
        then codes "\n  neighbor " ++ n.addr ++ codes " disable-connected-check"
        else [])
    ∷ [])

-- neighboripfamily.tmpl
unfoldable pub neighbor_enable_ip_family : NeighborConfig → Text
neighbor_enable_ip_family n = written (
    codes "\n"
    ∷ (if activate_neighbor_for (codes "ipv4") n.ip_family
        then written (
            codes "\n  address-family ipv4 unicast"
            ∷ (codes "\n    neighbor " ++ n.addr ++ codes " activate")
            ∷ codes "\n  exit-address-family"
            ∷ [])
        else [])
    ∷ (if activate_neighbor_for (codes "ipv6") n.ip_family
        then written (
            codes "\n  address-family ipv6 unicast"
            ∷ (codes "\n    neighbor " ++ n.addr ++ codes " activate")
            ∷ codes "\n  exit-address-family"
            ∷ [])
        else [])
    ∷ [])

-- frr.tmpl, from its top. The lines of the log level "debug":
unfoldable pub debug_lines : Text
debug_lines = written (
    codes "\ndebug zebra events"
    ∷ codes "\ndebug zebra nht"
    ∷ codes "\ndebug zebra kernel"
    ∷ codes "\ndebug zebra rib"
    ∷ codes "\ndebug zebra nexthop"
    ∷ codes "\ndebug bgp neighbor-events"
    ∷ codes "\ndebug bgp updates"
    ∷ codes "\ndebug bgp keepalives"
    ∷ codes "\ndebug bgp nht"
    ∷ codes "\ndebug bgp zebra"
    ∷ codes "\ndebug bfd network"
    ∷ codes "\ndebug bfd peer"
    ∷ codes "\ndebug bfd zebra"
    ∷ [])

-- The VRF of a VNI.
unfoldable pub vrf_section : VniConfig → Text
vrf_section v =
    written ((codes "\nvrf " ++ v.vrf) ∷ (codes "\n  vni " ++ itoa v.vni) ∷ codes "\nexit-vrf" ∷ [])

-- The session with the underlay.
unfoldable pub underlay_section : UnderlayConfig → Text
unfolding neighbor_session neighbor_enable_ip_family
underlay_section u = written (
    (codes "\nrouter bgp " ++ itoa_ℕ u.my_asn)
    ∷ codes "\n  no bgp ebgp-requires-policy"
    ∷ codes "\n  no bgp network import-check"
    ∷ codes "\n  no bgp default ipv4-unicast"
    ∷ ranged (λ n. neighbor_session n u.my_asn) u.neighbors
    ∷ ranged neighbor_enable_ip_family u.neighbors
    ∷ codes "\n  address-family ipv4 unicast"
    ∷ (codes "\n    network " ++ u.vtep)
    ∷ codes "\n  exit-address-family"
    ∷ codes "\n"
    ∷ codes "\n  address-family l2vpn evpn"
    ∷ ranged
        (λ n. written (
          (codes "\n    neighbor " ++ n.addr ++ codes " activate")
          ∷ (codes "\n    neighbor " ++ n.addr ++ codes " allowas-in origin")
          ∷ []))
        u.neighbors
    ∷ codes "\n    advertise-all-vni"
    ∷ codes "\n    advertise-svi-ip"
    ∷ codes "\n  exit-address-family"
    ∷ [])

-- The session of a VNI with the host, whose address is `l`.
unfoldable pub session_with_host : VniConfig → NeighborConfig → Text
session_with_host v l = written (
    codes "\n"
    ∷ (codes "\nrouter bgp " ++ itoa_ℕ v.asn ++ codes " vrf " ++ v.vrf)
    ∷ codes "\n  no bgp ebgp-requires-policy"
    ∷ codes "\n  no bgp network import-check"
    ∷ codes "\n  no bgp default ipv4-unicast"
    ∷ codes "\n"
    ∷ (codes "\n  neighbor " ++ l.addr ++ codes " remote-as " ++ itoa_ℕ l.asn)
    ∷ codes "\n"
    ∷ codes "\n  address-family ipv4 unicast"
    ∷ ranged (λ t. codes "\n    network " ++ t) v.to_advertise
    ∷ (codes "\n    neighbor " ++ l.addr ++ codes " activate")
    ∷ (codes "\n    neighbor " ++ l.addr ++ codes " route-map allowall in")
    ∷ (codes "\n    neighbor " ++ l.addr ++ codes " route-map allowall out")
    ∷ (codes "\n    neighbor " ++ l.addr ++ codes " allowas-in origin")
    ∷ codes "\n  exit-address-family"
    ∷ codes "\n"
    ∷ codes "\n  address-family l2vpn evpn"
    ∷ codes "\n    advertise ipv4 unicast"
    ∷ codes "\n    advertise ipv6 unicast"
    ∷ codes "\n  exit-address-family"
    ∷ codes "\nexit"
    ∷ [])

-- A field of a nil pointer is an error of the template.
unfoldable pub vni_section : VniConfig → Option NeighborConfig → Result Text
unfolding session_with_host
vni_section v none = err (errorf "nil pointer evaluating LocalNeighbor")
vni_section v (some l) = ok (session_with_host v l)

unfoldable pub vni_sections : List VniConfig → Result Text
unfolding vni_section
vni_sections [] = ok []
vni_sections (v ∷ vs) = do t ← vni_section v v.local_neighbor; ts ← vni_sections vs; ok (t ++ ts)

-- The rest of frr.tmpl, up to the sections of the VNIs.
unfoldable pub global_section : Config → Text
unfolding debug_lines vrf_section underlay_section
global_section c = written (
    (codes "log file /etc/frr/frr.log " ++ c.loglevel)
    ∷ codes "\nlog timestamp precision 3"
    ∷ (if eq_text c.loglevel (codes "debug") then debug_lines else [])
    ∷ (codes "\nhostname " ++ c.hostname)
    ∷ codes "\nip nht resolve-via-default"
    ∷ codes "\nipv6 nht resolve-via-default"
    ∷ ranged vrf_section c.vnis
    ∷ codes "\n"
    ∷ codes "\nroute-map allowall permit 1"
    ∷ (if c.underlay.my_asn == 0 then [] else underlay_section c.underlay)
    ∷ [])

-- templateConfig. Parsing the templates, which are part of the program, succeeds.
unfoldable pub template_config : Config → Result Text
unfolding global_section vni_sections
template_config c = do vnis ← vni_sections c.vnis; ok (global_section c ++ vnis ++ codes "\n")
