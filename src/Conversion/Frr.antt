-- ===== src/Conversion/Frr.antt =====
-- internal/conversion/frr_conversion.go: the custom resources as a configuration of FRR.
use pierre.Base.{
  ℕ, ◌==◌, ℤ, pos, false, Option, none, some, List, [], ◌∷◌, ◌++◌, Text, codes, Result, ok, err,
  Error, errorf, wrap, ◌>>=◌, wrapping, or_else, traverse, if◌then◌else◌,
}
use mathlib.Core.Option
use pierre.Base.Decimal.{itoa_ℕ}
use pierre.Net.{Net}
use pierre.IpFamily.{Family, for_addresses}
use pierre.Ipam.{vtep_ip, veth_ips}
use pierre.Api.{Neighbor, Underlay, Vni}
use pierre.Frr.Config.{NeighborConfig, VniConfig, Config}
use pierre.Conversion.Timers.{parse_timers, whole_seconds, to_uint64}

unfoldable pub neighbor_name : Neighbor → Text
unfolding itoa_ℕ
neighbor_name n = itoa_ℕ n.asn ++ codes "@" ++ n.address

abbrev family_or : Family × Option Error → Result Family
family_or (f, none) = ok f
family_or (f, some e) = err (wrap "failed to find ipfamily" e)

-- `ConnectTime` in whole seconds.
abbrev connect_seconds : ℤ → ℕ
connect_seconds d = to_uint64 (whole_seconds d)

-- The neighbor of a VNI's router: the node's leg, with no other field set.
abbrev pub local_neighbor : Text → ℕ → NeighborConfig
local_neighbor addr asn = record {
  name = [];
  asn = asn;
  addr = addr;
  port = none;
  hold_time = none;
  keepalive_time = none;
  connect_time = none;
  password = [];
  bfd_profile = [];
  ebgp_multi_hop = false;
  ip_family = none;
}

module _ (net : Net) where
  unfoldable pub neighbor_to_frr : Neighbor → Result NeighborConfig
  unfolding neighbor_name
  neighbor_to_frr n = do
    family ← family_or (for_addresses net (n.address ∷ []))
    if n.asn == 0 then err (errorf "neighbor does not have ASN") else do
      (hold, keepalive) ← wrapping "invalid timers" (parse_timers n.hold_time n.keepalive_time)
      ok (record {
        name = neighbor_name n;
        asn = n.asn;
        addr = n.address;
        port = n.port;
        hold_time = hold;
        keepalive_time = keepalive;
        connect_time = Option.map connect_seconds n.connect_time;
        password = [];
        bfd_profile = n.bfd_profile;
        ebgp_multi_hop = n.ebgp_multi_hop;
        ip_family = some family;
      })

  unfoldable pub vni_to_frr : ℕ → Vni → Result VniConfig
  vni_to_frr node_index vni = do
    veths ← wrapping "failed to get veths ips" (veth_ips net vni.spec.local_cidr node_index)
    let addr = net.ip_string veths.host_side.ip
    ok (record {
      asn = vni.spec.asn;
      to_advertise = (addr ++ codes "/32") ∷ [];
      local_neighbor = some (local_neighbor addr vni.spec.local_asn);
      vrf = vni.spec.vrf;
      vni = pos vni.spec.vni;
    })

  unfoldable pub from_underlay : ℕ → Underlay → List Vni → Text → Result Config
  from_underlay node_index underlay vnis log_level = do
    vtep ← or_else "failed to get vtep ip" (vtep_ip net underlay.spec.vtep_cidr node_index)
    neighbors ←
        traverse (λ n. wrapping "failed to translate underlay neighbor" (neighbor_to_frr n))
          underlay.spec.neighbors
    vni_configs ←
        traverse (λ v. wrapping "failed to translate vni to frr" (vni_to_frr node_index v)) vnis
    ok (record {
      loglevel = log_level;
      hostname = [];
      underlay = record { my_asn = underlay.spec.asn; vtep = vtep; neighbors = neighbors };
      vnis = vni_configs;
    })

  -- APItoFRR
  unfoldable pub api_to_frr : ℕ → List Underlay → List Vni → Text → Result Config
  unfolding from_underlay
  api_to_frr node_index (u ∷ w ∷ us) vnis log_level =
      err (errorf "can't have more than one underlay")
  api_to_frr node_index [] vnis log_level = err (errorf "no underlays defined")
  api_to_frr node_index (u ∷ []) [] log_level = err (errorf "no vnis defined")
  api_to_frr node_index (u ∷ []) (v ∷ vs) log_level = from_underlay node_index u (v ∷ vs) log_level
