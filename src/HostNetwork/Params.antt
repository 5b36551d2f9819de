-- ===== src/HostNetwork/Params.antt =====
-- internal/hostnetwork: the parameters of SetupUnderlay (underlay.go) and SetupVNI (vni.go).
use pierre.Base.{ℤ, Text}

pub record UnderlayParams : Type 0 where
  pub main_nic : Text
  pub vtep_ip : Text
  pub target_ns : Text

pub record VniParams : Type 0 where
  pub vrf : Text
  pub target_ns : Text
  pub vtep_ip : Text
  pub veth_host_ip : Text
  pub veth_ns_ip : Text
  pub vni : ℤ
  pub vxlan_port : ℤ
