-- ===== src/Api.antt =====
-- api/v1alpha1: the custom resources, with the fields of their specifications. A
-- metav1.Duration is the number of its nanoseconds.
use pierre.Base.{ℕ, ℤ, Bool, Option, List, Text}

-- api/v1alpha1/neighbor.go
pub record Neighbor : Type 0 where
  pub asn : ℕ  -- uint32
  pub address : Text
  pub port : Option ℕ  -- *uint16
  pub password : Text
  pub password_secret : Text
  pub hold_time : Option ℤ
  pub keepalive_time : Option ℤ
  pub connect_time : Option ℤ
  pub ebgp_multi_hop : Bool
  pub bfd_profile : Text

-- api/v1alpha1/underlay_types.go
pub record UnderlaySpec : Type 0 where
  pub asn : ℕ  -- uint32
  pub vtep_cidr : Text
  pub neighbors : List Neighbor
  pub nic : Text

pub record Underlay : Type 0 where
  pub name : Text
  pub spec : UnderlaySpec

-- api/v1alpha1/vni_types.go
pub record VniSpec : Type 0 where
  pub asn : ℕ  -- uint32
  pub vrf : Text
  pub local_asn : ℕ  -- uint32
  pub vni : ℕ  -- uint32
  pub local_cidr : Text
  pub vxlan_port : ℕ  -- uint32

pub record Vni : Type 0 where
  pub name : Text
  pub spec : VniSpec
