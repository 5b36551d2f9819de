-- ===== src/Tests/Rendering.antt =====
-- The rendered configuration, as in internal/frr/testdata.
use pierre.Base.{◌≡◌, refl, false, none, some, [], ◌∷◌, Text, codes, ok, map, pos, eq_text}
use pierre.Base.Decimal.{itoa}
use pierre.IpFamily.{ipv4, family_string}
use pierre.Frr.Config.{
  NeighborConfig, VniConfig, Config, must_disable_connected_check, activate_neighbor_for,
}
use pierre.Frr.Template.Prints.{plain, reads}
use pierre.Frr.Template.Commands.{print, commands}
use pierre.Frr.Template.Read.{IsPlainConfig, template_config_lem}
use pierre.Frr.Template.{written, template_config}

abbrev neighbor : NeighborConfig
neighbor = record {
  name = [];
  asn = 64512;
  addr = codes "192.168.1.2";
  port = none;
  hold_time = none;
  keepalive_time = none;
  connect_time = none;
  password = [];
  bfd_profile = [];
  ebgp_multi_hop = false;
  ip_family = some ipv4;
}

abbrev red : VniConfig
red = record {
  asn = 64512;
  to_advertise = codes "192.169.10.2/24" ∷ [];
  local_neighbor = some neighbor;
  vrf = codes "red";
  vni = pos 100;
}

abbrev empty : Config
empty = record {
  loglevel = [];
  hostname = codes "cnfdc8.t5g-dev.eng.rdu2.dc.redhat.com";
  underlay = record { my_asn = 0; vtep = []; neighbors = [] };
  vnis = [];
}

abbrev basic : Config
basic = record empty {
  underlay = record { my_asn = 64512; vtep = codes "100.64.0.1/32"; neighbors = neighbor ∷ [] };
  vnis = red ∷ [];
}

-- TestEmpty.golden
abbrev empty_golden : Text
empty_golden = written (
    codes "log file /etc/frr/frr.log \n"
    ∷ codes "log timestamp precision 3\n"
    ∷ codes "hostname cnfdc8.t5g-dev.eng.rdu2.dc.redhat.com\n"
    ∷ codes "ip nht resolve-via-default\n"
    ∷ codes "ipv6 nht resolve-via-default\n"
    ∷ codes "\n"
    ∷ codes "route-map allowall permit 1\n"
    ∷ [])

-- TestBasic.golden
abbrev basic_golden : Text
basic_golden = written (
    codes "log file /etc/frr/frr.log \n"
    ∷ codes "log timestamp precision 3\n"
    ∷ codes "hostname cnfdc8.t5g-dev.eng.rdu2.dc.redhat.com\n"
    ∷ codes "ip nht resolve-via-default\n"
    ∷ codes "ipv6 nht resolve-via-default\n"
    ∷ codes "vrf red\n"
    ∷ codes "  vni 100\n"
    ∷ codes "exit-vrf\n"
    ∷ codes "\n"
    ∷ codes "route-map allowall permit 1\n"
    ∷ codes "router bgp 64512\n"
    ∷ codes "  no bgp ebgp-requires-policy\n"
    ∷ codes "  no bgp network import-check\n"
    ∷ codes "  no bgp default ipv4-unicast\n"
    ∷ codes "  neighbor 192.168.1.2 remote-as 64512\n"
    ∷ codes "  \n"
    ∷ codes "  \n"
    ∷ codes "  \n"
    ∷ codes "\n"
    ∷ codes "  address-family ipv4 unicast\n"
    ∷ codes "    neighbor 192.168.1.2 activate\n"
    ∷ codes "  exit-address-family\n"
    ∷ codes "  address-family ipv4 unicast\n"
    ∷ codes "    network 100.64.0.1/32\n"
    ∷ codes "  exit-address-family\n"
    ∷ codes "\n"
    ∷ codes "  address-family l2vpn evpn\n"
    ∷ codes "    neighbor 192.168.1.2 activate\n"
    ∷ codes "    neighbor 192.168.1.2 allowas-in origin\n"
    ∷ codes "    advertise-all-vni\n"
    ∷ codes "    advertise-svi-ip\n"
    ∷ codes "  exit-address-family\n"
    ∷ codes "\n"
    ∷ codes "router bgp 64512 vrf red\n"
    ∷ codes "  no bgp ebgp-requires-policy\n"
    ∷ codes "  no bgp network import-check\n"
    ∷ codes "  no bgp default ipv4-unicast\n"
    ∷ codes "\n"
    ∷ codes "  neighbor 192.168.1.2 remote-as 64512\n"
    ∷ codes "\n"
    ∷ codes "  address-family ipv4 unicast\n"
    ∷ codes "    network 192.169.10.2/24\n"
    ∷ codes "    neighbor 192.168.1.2 activate\n"
    ∷ codes "    neighbor 192.168.1.2 route-map allowall in\n"
    ∷ codes "    neighbor 192.168.1.2 route-map allowall out\n"
    ∷ codes "    neighbor 192.168.1.2 allowas-in origin\n"
    ∷ codes "  exit-address-family\n"
    ∷ codes "\n"
    ∷ codes "  address-family l2vpn evpn\n"
    ∷ codes "    advertise ipv4 unicast\n"
    ∷ codes "    advertise ipv6 unicast\n"
    ∷ codes "  exit-address-family\n"
    ∷ codes "exit\n"
    ∷ [])

empty_rendered : template_config empty ≡ ok empty_golden
unfolding template_config eq_text
empty_rendered = refl

basic_rendered : template_config basic ≡ ok basic_golden
unfolding template_config eq_text itoa must_disable_connected_check activate_neighbor_for
    family_string
basic_rendered = refl

basic-IsPlainConfig : IsPlainConfig basic
unfolding plain
basic-IsPlainConfig = record {
  loglevel = refl;
  hostname = refl;
  underlay = record {
    vtep = refl;
    neighbors = (record { addr = refl; password = refl; bfd_profile = refl }, tt);
  };
  vnis = (record { vrf = refl; to_advertise = (refl, tt); local_neighbor = refl }, tt);
}

template_config_lem_example :
    (t : Text) × (template_config basic ≡ ok t) × (reads t ≡ map print (commands basic))
template_config_lem_example = template_config_lem basic basic-IsPlainConfig
