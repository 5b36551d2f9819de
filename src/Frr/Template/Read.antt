-- ===== src/Frr/Template/Read.antt =====
-- internal/frr/config.go, templateConfig: what FRR reads of the text of a configuration.
use pierre.Base.{
  ◌==◌, ◌≡◌, refl, ap, ◌∙◌, true, Option, none, some, List, [], ◌∷◌, ◌++◌, Text, codes, map, All,
  append_assoc, if◌then◌else◌, eq_text, Result, ok, ◌>>=◌,
}
use pierre.Frr.Config.{NeighborConfig, VniConfig, UnderlayConfig, Config}
use pierre.Frr.Template.{
  written, ranged, neighbor_session, neighbor_enable_ip_family, vrf_section, debug_lines,
  underlay_section, session_with_host, vni_section, vni_sections, global_section, template_config,
}
use pierre.Frr.Template.Prints.{reads, plain, blank, reads-append}
use pierre.Frr.Template.Commands.{
  Command, print, fixed, hostname, vrf, network, vni, router_bgp, router_bgp_vrf, remote_as,
  activate, allowas_in, route_map_in, route_map_out, commands, session, family, underlay, overlay,
  overlay_of, general, for_each, joined, router_options, session_of_host, debugged,
}
use pierre.Frr.Template.Lines.{
  Writes, IsPlainNeighbor, line, nothing, ◌then◌, Writes-if, Writes-unless, Writes-ranged, single,
  break, session_lem, family_lem,
}

vrf_lem :
    (v : VniConfig)
    → plain v.vrf ≡ true
    → Writes (vrf_section v) (vrf v.vrf ∷ vni v.vni ∷ fixed "exit-vrf" ∷ [])
unfolding vrf_section plain blank
vrf_lem v h =
    line (vrf v.vrf) h then line (vni v.vni) tt then single "exit-vrf" refl refl then nothing

debug_lem : Writes debug_lines debugged
unfolding debug_lines plain blank
debug_lem =
    single "debug zebra events" refl refl
    then single "debug zebra nht" refl refl
    then single "debug zebra kernel" refl refl
    then single "debug zebra rib" refl refl
    then single "debug zebra nexthop" refl refl
    then single "debug bgp neighbor-events" refl refl
    then single "debug bgp updates" refl refl
    then single "debug bgp keepalives" refl refl
    then single "debug bgp nht" refl refl
    then single "debug bgp zebra" refl refl
    then single "debug bfd network" refl refl
    then single "debug bfd peer" refl refl
    then single "debug bfd zebra" refl refl
    then nothing

options_lem :
    {t : Text} {cs : List Command}
    → Writes t cs
    → Writes
        (codes "\n  no bgp ebgp-requires-policy"
          ++ (codes "\n  no bgp network import-check"
              ++ (codes "\n  no bgp default ipv4-unicast" ++ t)))
        (router_options ++ cs)
unfolding plain blank
options_lem w =
    single "  no bgp ebgp-requires-policy" refl refl
    then single "  no bgp network import-check" refl refl
    then single "  no bgp default ipv4-unicast" refl refl
    then w

-- The texts of the underlay have no line breaks.
pub record IsPlainUnderlay (u : UnderlayConfig) : Type 0 where
  pub vtep : plain u.vtep ≡ true
  pub neighbors : All IsPlainNeighbor u.neighbors

All-map :
    {A : Type 0} {P Q : A → Type 0} (xs : List A) → ((x : A) → P x → Q x) → All P xs → All Q xs
All-map [] f h = tt
All-map (x ∷ xs) f (p, ps) = (f x p, All-map xs f ps)

underlay_lem : (u : UnderlayConfig) → IsPlainUnderlay u → Writes (underlay_section u) (underlay u)
unfolding underlay_section plain blank
underlay_lem u h =
    line (router_bgp u.my_asn) tt
    then options_lem (
        Writes-ranged (λ n. neighbor_session n u.my_asn) (session u.my_asn) u.neighbors
          (All-map u.neighbors (λ n p. session_lem n u.my_asn p) h.neighbors)
        then Writes-ranged neighbor_enable_ip_family family u.neighbors
            (All-map u.neighbors (λ n p. family_lem n p.addr) h.neighbors)
        then single "  address-family ipv4 unicast" refl refl
        then line (network u.vtep) h.vtep
        then single "  exit-address-family" refl refl
        then break
        then single "  address-family l2vpn evpn" refl refl
        then Writes-ranged _ (λ n. activate n.addr ∷ allowas_in n.addr ∷ []) u.neighbors
            (All-map u.neighbors
              (λ n p.
                line (activate n.addr) p.addr then line (allowas_in n.addr) p.addr then nothing)
              h.neighbors)
        then single "    advertise-all-vni" refl refl
        then single "    advertise-svi-ip" refl refl
        then single "  exit-address-family" refl refl
        then nothing)

host_lem :
    (v : VniConfig) (l : NeighborConfig)
    → plain v.vrf ≡ true
    → All (λ t. plain t ≡ true) v.to_advertise
    → plain l.addr ≡ true
    → Writes (session_with_host v l) (session_of_host v l)
unfolding session_with_host plain blank
host_lem v l p ps h =
    break
    then line (router_bgp_vrf v.asn v.vrf) p
    then options_lem (
        break
        then line (remote_as l.addr l.asn) h
        then break
        then single "  address-family ipv4 unicast" refl refl
        then Writes-ranged _ (λ t. network t ∷ []) v.to_advertise
            (All-map v.to_advertise (λ t q. line (network t) q) ps)
        then line (activate l.addr) h
        then line (route_map_in l.addr) h
        then line (route_map_out l.addr) h
        then line (allowas_in l.addr) h
        then single "  exit-address-family" refl refl
        then break
        then single "  address-family l2vpn evpn" refl refl
        then single "    advertise ipv4 unicast" refl refl
        then single "    advertise ipv6 unicast" refl refl
        then single "  exit-address-family" refl refl
        then single "exit" refl refl
        then nothing)

-- There is a neighbor, and its address has no line breaks.
abbrev pub IsPlainLocal : Option NeighborConfig → Type 0
IsPlainLocal none = ⊥
IsPlainLocal (some l) = plain l.addr ≡ true

pub record IsPlainVni (v : VniConfig) : Type 0 where
  pub vrf : plain v.vrf ≡ true
  pub to_advertise : All (λ t. plain t ≡ true) v.to_advertise
  pub local_neighbor : IsPlainLocal v.local_neighbor

vni_lem :
    (v : VniConfig) (o : Option NeighborConfig)
    → plain v.vrf ≡ true
    → All (λ t. plain t ≡ true) v.to_advertise
    → IsPlainLocal o
    → (t : Text) × (vni_section v o ≡ ok t) × Writes t (overlay_of v o)
unfolding vni_section
vni_lem v none p ps h = elim h [ ]
vni_lem v (some l) p ps h = (session_with_host v l, refl, host_lem v l p ps h)

vnis_lem :
    (vs : List VniConfig)
    → All IsPlainVni vs
    → (t : Text) × (vni_sections vs ≡ ok t) × Writes t (for_each overlay vs)
unfolding vni_sections
vnis_lem [] h = ([], refl, nothing)
vnis_lem (v ∷ vs) (h, hs) =
    let (t, e, w) = vni_lem v v.local_neighbor h.vrf h.to_advertise h.local_neighbor in
    let (u, e', w') = vnis_lem vs hs in (t ++ u, rw (e, e') refl, w then w')

-- No text of the configuration has a line break, and the VNIs have neighbors.
pub record IsPlainConfig (c : Config) : Type 0 where
  pub loglevel : plain c.loglevel ≡ true
  pub hostname : plain c.hostname ≡ true
  pub underlay : IsPlainUnderlay c.underlay
  pub vnis : All IsPlainVni c.vnis

-- The global section behind the first line.
abbrev rest : Config → Text
rest c = written (
    codes "\nlog timestamp precision 3"
    ∷ (if eq_text c.loglevel (codes "debug") then debug_lines else [])
    ∷ (codes "\nhostname " ++ c.hostname)
    ∷ codes "\nip nht resolve-via-default"
    ∷ codes "\nipv6 nht resolve-via-default"
    ∷ ranged vrf_section c.vnis
    ∷ codes "\n"
    ∷ codes "\nroute-map allowall permit 1"
    ∷ (if c.underlay.my_asn == 0 then [] else underlay_section c.underlay)
    ∷ [])

rest_lem : (c : Config) → IsPlainConfig c → Writes (rest c) (general c)
unfolding plain blank
rest_lem c h =
    single "log timestamp precision 3" refl refl
    then Writes-if (eq_text c.loglevel (codes "debug")) debug_lem
    then line (hostname c.hostname) h.hostname
    then single "ip nht resolve-via-default" refl refl
    then single "ipv6 nht resolve-via-default" refl refl
    then Writes-ranged vrf_section _ c.vnis (All-map c.vnis (λ v p. vrf_lem v p.vrf) h.vnis)
    then break
    then single "route-map allowall permit 1" refl refl
    then Writes-unless (c.underlay.my_asn == 0) (underlay_lem c.underlay h.underlay)
    then nothing

-- A configuration whose texts have no line breaks, and whose VNIs have neighbors, is rendered; and
-- FRR reads from the text, without its blank lines, exactly the commands of the configuration, in
-- their order.
pub template_config_lem :
    (c : Config)
    → IsPlainConfig c
    → (t : Text) × (template_config c ≡ ok t) × (reads t ≡ map print (commands c))
unfolding template_config global_section plain blank
template_config_lem c h =
    let (t, e, w) = vnis_lem c.vnis h.vnis in
    let first = codes "log file /etc/frr/frr.log " ++ c.loglevel in
    (
      global_section c ++ t ++ codes "\n",
      ap (λ (r : Result Text). r >>= λ vnis. ok (global_section c ++ vnis ++ codes "\n")) e,
      ap reads (
            append_assoc (first ++ rest c) t (codes "\n")
            ∙ append_assoc first (rest c) (t ++ codes "\n"))
          ∙ reads-append first (rest c ++ (t ++ codes "\n"))
              (map print (general c ++ joined (for_each overlay c.vnis ∷ []))) h.loglevel refl
              (rest_lem c h then w then break).prints,
    )
