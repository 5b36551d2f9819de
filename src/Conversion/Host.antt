-- ===== src/Conversion/Host.antt =====
-- internal/conversion/host_configuration.go: the custom resources as parameters of the host's
-- interfaces.
use pierre.Base.{ℕ, pos, List, [], ◌∷◌, Text, Result, ok, err, errorf, ◌>>=◌, or_else, traverse}
use pierre.Net.{Net, net_string}
use pierre.Ipam.{vtep_ip, veth_ips}
use pierre.Api.{Underlay, Vni}
use pierre.HostNetwork.Params.{UnderlayParams, VniParams}

abbrev pub no_underlay : UnderlayParams
no_underlay = record { main_nic = []; vtep_ip = []; target_ns = [] }

module _ (net : Net) where
  -- The body of the loop over the VNIs.
  unfoldable pub vni_to_host : ℕ → Text → Text → Vni → Result VniParams
  vni_to_host node_index target_ns vtep vni = do
    veths ← or_else "failed to get veth ips" (veth_ips net vni.spec.local_cidr node_index)
    ok (record {
      vrf = vni.spec.vrf;
      target_ns = target_ns;
      vtep_ip = vtep;
      vni = pos vni.spec.vni;
      veth_host_ip = net_string net veths.host_side;
      veth_ns_ip = net_string net veths.container_side;
      vxlan_port = pos vni.spec.vxlan_port;
    })

  unfoldable pub host_from_underlay :
      ℕ → Text → Underlay → List Vni → Result (UnderlayParams × List VniParams)
  unfolding vni_to_host
  host_from_underlay node_index target_ns underlay vnis = do
    vtep ← or_else "failed to get vtep ip" (vtep_ip net underlay.spec.vtep_cidr node_index)
    params ← traverse (vni_to_host node_index target_ns vtep) vnis
    ok (record { main_nic = underlay.spec.nic; target_ns = target_ns; vtep_ip = vtep }, params)

  -- APItoHostConfig
  unfoldable pub api_to_host_config :
      ℕ → Text → List Underlay → List Vni → Result (UnderlayParams × List VniParams)
  unfolding host_from_underlay
  api_to_host_config node_index target_ns (u ∷ w ∷ us) vnis =
      err (errorf "can't have more than one underlay")
  api_to_host_config node_index target_ns [] vnis = ok (no_underlay, [])
  api_to_host_config node_index target_ns (u ∷ []) [] = ok (no_underlay, [])
  api_to_host_config node_index target_ns (u ∷ []) (v ∷ vs) =
      host_from_underlay node_index target_ns u (v ∷ vs)
