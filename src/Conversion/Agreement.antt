-- ===== src/Conversion/Agreement.antt =====
-- internal/conversion: the two conversions of the same resources fit together.
use pierre.Base.{
  ℕ, ◌≡◌, ◌≢◌, refl, subst, pos, none, some, List, [], ◌∷◌, ◌++◌, Text, codes, ok, or_else,
  wrapping, traverse, traverse_agree, traverse-All₂, All₂-map, All₂, >>=-eq-ok, wrapping-eq-ok,
  ok-injective, Result-cases, inl, inr, arith,
}
use pierre.Net.{Net, IpNet, net_string}
use pierre.IpFamily.{for_addresses}
use pierre.Ipam.{vtep_ip, veth_ips}
use pierre.Api.{Neighbor, Underlay, Vni}
use pierre.Frr.Config.{NeighborConfig, VniConfig, Config}
use pierre.HostNetwork.Params.{UnderlayParams, VniParams}
use pierre.Conversion.Timers.{parse_timers}
use pierre.Conversion.Frr.{
  local_neighbor, neighbor_to_frr, vni_to_frr, api_to_frr, from_underlay, neighbor_name,
}
use pierre.Conversion.Host.{vni_to_host, host_from_underlay, api_to_host_config}

module _ (net : Net) where
  -- The FRR configuration of a VNI peers with the address that the node's leg of it is given.
  pub record SameVni (vtep : Text) (cfg : VniConfig) (p : VniParams) : Type 0 where
    pub vrf : p.vrf ≡ cfg.vrf
    pub vni : p.vni ≡ cfg.vni
    pub vtep_eq : p.vtep_ip ≡ vtep
    pub side : IpNet
    pub asn : ℕ
    pub leg : p.veth_host_ip ≡ net_string net side
    pub peer : cfg.local_neighbor ≡ some (local_neighbor (net.ip_string side.ip) asn)
    pub advertised : cfg.to_advertise ≡ (net.ip_string side.ip ++ codes "/32") ∷ []

  vni_agreement :
      (node_index : ℕ) (target_ns vtep : Text) (v : Vni) (cfg : VniConfig)
      → vni_to_frr net node_index v ≡ ok cfg
      → (p : VniParams) × (vni_to_host net node_index target_ns vtep v ≡ ok p) × SameVni vtep cfg p
  unfolding vni_to_frr vni_to_host
  vni_agreement node_index target_ns vtep v cfg h =
      elim (Result-cases (veth_ips net v.spec.local_cidr node_index)) [
        | inl (veths, e) ↦ (
          record {
            vrf = v.spec.vrf;
            target_ns = target_ns;
            vtep_ip = vtep;
            vni = pos v.spec.vni;
            veth_host_ip = net_string net veths.host_side;
            veth_ns_ip = net_string net veths.container_side;
            vxlan_port = pos v.spec.vxlan_port;
          },
          ground (arith, e),
          record {
            vrf = ground (arith, e);
            vni = ground (arith, e);
            vtep_eq = refl;
            side = veths.host_side;
            asn = v.spec.local_asn;
            leg = refl;
            peer = ground (arith, e);
            advertised = ground (arith, e);
          },
        )
        | inr (x, e) ↦ ground (arith, e)
      ]

  from_underlay_agreement :
      (node_index : ℕ) (target_ns : Text) (u : Underlay) (vnis : List Vni) (log_level : Text)
      (c : Config)
      → from_underlay net node_index u vnis log_level ≡ ok c
      → (params : UnderlayParams) × (vni_params : List VniParams) × (host_from_underlay net
            node_index target_ns u vnis
          ≡ ok (params, vni_params))
        × (params
            ≡ record { main_nic = u.spec.nic; target_ns = target_ns; vtep_ip = c.underlay.vtep })
        × All₂ (SameVni c.underlay.vtep) c.vnis vni_params
  unfolding from_underlay host_from_underlay
  from_underlay_agreement node_index target_ns u vnis log_level c h =
      let (vtep, e1, h1) =
        >>=-eq-ok (or_else "failed to get vtep ip" (vtep_ip net u.spec.vtep_cidr node_index)) _ h in
      let (neighbors, e2, h2) =
        >>=-eq-ok
          (traverse (λ n. wrapping "failed to translate underlay neighbor" (neighbor_to_frr net n))
            u.spec.neighbors)
          _ h1 in
      let (cfgs, e3, h3) =
        >>=-eq-ok
          (traverse (λ v. wrapping "failed to translate vni to frr" (vni_to_frr net node_index v))
            vnis)
          _ h2 in
      let (ps, e4, agree) =
        traverse_agree (SameVni vtep) _ (vni_to_host net node_index target_ns vtep)
          (λ v cfg e.
            vni_agreement node_index target_ns vtep v cfg
              (wrapping-eq-ok _ (vni_to_frr net node_index v) e))
          vnis cfgs e3 in
      (
        record { main_nic = u.spec.nic; target_ns = target_ns; vtep_ip = c.underlay.vtep },
        ps,
        ground (arith, e1, e4, h3),
        refl,
        subst (λ (d : Config). All₂ (SameVni d.underlay.vtep) d.vnis ps) (ok-injective h3) agree,
      )

  -- What FRR can be configured with, the host can be configured with: if APItoFRR succeeds, so does
  -- APItoHostConfig on the same resources, for any namespace. The loopback gets the VTEP address
  -- that FRR announces, and the VNIs correspond one by one, each peering with the address that its
  -- leg on the node is given.
  pub api_to_host_config_agrees :
      (node_index : ℕ) (target_ns : Text) (underlays : List Underlay) (vnis : List Vni)
      (log_level : Text) (c : Config)
      → api_to_frr net node_index underlays vnis log_level ≡ ok c
      → (params : UnderlayParams) × (vni_params : List VniParams) × (api_to_host_config net
            node_index target_ns underlays vnis
          ≡ ok (params, vni_params))
        × (params.vtep_ip ≡ c.underlay.vtep)
        × (params.target_ns ≡ target_ns)
        × All₂ (SameVni c.underlay.vtep) c.vnis vni_params
  unfolding api_to_frr api_to_host_config
  api_to_host_config_agrees node_index target_ns [] vnis log_level c h = cc
  api_to_host_config_agrees node_index target_ns (u ∷ w ∷ us) vnis log_level c h = cc
  api_to_host_config_agrees node_index target_ns (u ∷ []) [] log_level c h = cc
  api_to_host_config_agrees node_index target_ns (u ∷ []) (v ∷ vs) log_level c h =
      let (p, ps, e, same, agree) =
        from_underlay_agreement node_index target_ns u (v ∷ vs) log_level c h in
      (p, ps, e, cc, cc, agree)

  -- A neighbor of the underlay as FRR is given it.
  pub record NeighborFor (n : Neighbor) (cfg : NeighborConfig) : Type 0 where
    pub name : cfg.name ≡ neighbor_name n
    pub addr : cfg.addr ≡ n.address
    pub asn : cfg.asn ≡ n.asn
    pub asn_set : cfg.asn ≢ 0
    pub family : for_addresses net (n.address ∷ []) ≡ ((for_addresses net (n.address ∷ [])).0, none)
    pub timers : parse_timers n.hold_time n.keepalive_time ≡ ok (cfg.hold_time, cfg.keepalive_time)
    pub ip_family : cfg.ip_family ≡ some (for_addresses net (n.address ∷ [])).0
    pub port : cfg.port ≡ n.port
    pub bfd_profile : cfg.bfd_profile ≡ n.bfd_profile
    pub ebgp_multi_hop : cfg.ebgp_multi_hop ≡ n.ebgp_multi_hop
    pub password : cfg.password ≡ []

  neighbor_to_frr_lem :
      (n : Neighbor) (cfg : NeighborConfig) → neighbor_to_frr net n ≡ ok cfg → NeighborFor n cfg
  unfolding neighbor_to_frr
  neighbor_to_frr_lem n cfg h = ground arith

  from_underlay_neighbors :
      (node_index : ℕ) (u : Underlay) (vnis : List Vni) (log_level : Text) (c : Config)
      → from_underlay net node_index u vnis log_level ≡ ok c
      → All₂ NeighborFor u.spec.neighbors c.underlay.neighbors
        × (c.underlay.my_asn ≡ u.spec.asn)
        × (c.loglevel ≡ log_level)
  unfolding from_underlay
  from_underlay_neighbors node_index u vnis log_level c h =
      let (vtep, e1, h1) =
        >>=-eq-ok (or_else "failed to get vtep ip" (vtep_ip net u.spec.vtep_cidr node_index)) _ h in
      let (neighbors, e2, h2) =
        >>=-eq-ok
          (traverse (λ n. wrapping "failed to translate underlay neighbor" (neighbor_to_frr net n))
            u.spec.neighbors)
          _ h1 in
      let (cfgs, e3, h3) =
        >>=-eq-ok
          (traverse (λ v. wrapping "failed to translate vni to frr" (vni_to_frr net node_index v))
            vnis)
          _ h2 in
      let translated : All₂ NeighborFor u.spec.neighbors neighbors =
        All₂-map (λ n cfg e. neighbor_to_frr_lem n cfg (wrapping-eq-ok _ (neighbor_to_frr net n) e))
          u.spec.neighbors neighbors (traverse-All₂ _ u.spec.neighbors neighbors e2) in
      (
        subst (λ (d : Config). All₂ NeighborFor u.spec.neighbors d.underlay.neighbors)
            (ok-injective h3) translated,
        ground (arith, h3),
        ground (arith, h3),
      )

  -- APItoFRR succeeds only for one underlay and at least one VNI. Its neighbors are translated one
  -- by one: each has an AS number other than 0, an address of a known family, timers that were
  -- accepted, and the port, the BFD profile and the multi-hop flag of the resource, but no password.
  pub api_to_frr_neighbors :
      (node_index : ℕ) (underlays : List Underlay) (vnis : List Vni) (log_level : Text) (c : Config)
      → api_to_frr net node_index underlays vnis log_level ≡ ok c
      → (u : Underlay) × (underlays ≡ u ∷ [])
        × (vnis ≢ [])
        × All₂ NeighborFor u.spec.neighbors c.underlay.neighbors
        × (c.underlay.my_asn ≡ u.spec.asn)
        × (c.loglevel ≡ log_level)
  unfolding api_to_frr
  api_to_frr_neighbors node_index [] vnis log_level c h = cc
  api_to_frr_neighbors node_index (u ∷ w ∷ us) vnis log_level c h = cc
  api_to_frr_neighbors node_index (u ∷ []) [] log_level c h = cc
  api_to_frr_neighbors node_index (u ∷ []) (v ∷ vs) log_level c h =
      let (neighbors, asn, level) = from_underlay_neighbors node_index u (v ∷ vs) log_level c h in
      (u, refl, λ e. cc, neighbors, asn, level)
