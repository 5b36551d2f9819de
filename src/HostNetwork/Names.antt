-- ===== src/HostNetwork/Names.antt =====
-- internal/hostnetwork: the names of the interfaces of a VNI, and back (bridge.go, vxlan.go and
-- veth.go).
use pierre.Base.{
  ℕ, ℤ, ◌≡◌, ◌≢◌, [], ◌∷◌, ◌↔◌, arith, ap, ◌∙◌, ◌++◌, Option, none, some, Text, codes, trim_prefix,
  trim_prefix-append, Result, ok, err, errorf,
}
use pierre.Base.Decimal.{itoa, atoi, atoi-itoa, InInt}

abbrev pub vni_prefix : Text
vni_prefix = codes "vni"

abbrev pub bridge_prefix : Text
bridge_prefix = codes "br"

abbrev pub host_veth_prefix : Text
host_veth_prefix = codes "host"

abbrev pub pe_veth_prefix : Text
pe_veth_prefix = codes "pe"

unfoldable pub vxlan_name : ℤ → Text
vxlan_name vni = vni_prefix ++ itoa vni

-- BridgeName and bridgeName
unfoldable pub bridge_name : ℤ → Text
bridge_name vni = bridge_prefix ++ itoa vni

abbrev number : Text → Option ℤ → Result ℤ
number name none = err (errorf "failed to get vni")
number name (some n) = ok n

unfoldable pub vni_from_vxlan_name : Text → Result ℤ
vni_from_vxlan_name name = number name (atoi (trim_prefix name vni_prefix))

unfoldable pub vni_from_bridge_name : Text → Result ℤ
vni_from_bridge_name name = number name (atoi (trim_prefix name bridge_prefix))

unfoldable pub veth_legs_for_vrf : Text → Text × Text
veth_legs_for_vrf name = (host_veth_prefix ++ name, pe_veth_prefix ++ name)

unfoldable pub vrf_for_host_leg : Text → Text
vrf_for_host_leg name = trim_prefix name host_veth_prefix

-- The VNI of a VXLAN is read back from its name, if it is in the range of an int.
pub vni_from_vxlan_name-vxlan_name :
    (vni : ℤ) → InInt vni → vni_from_vxlan_name (vxlan_name vni) ≡ ok vni
unfolding vni_from_vxlan_name vxlan_name
vni_from_vxlan_name-vxlan_name vni h =
    ap (λ t. number (vxlan_name vni) (atoi t)) (trim_prefix-append vni_prefix (itoa vni))
    ∙ ap (number (vxlan_name vni)) (atoi-itoa vni h)

pub vni_from_bridge_name-bridge_name :
    (vni : ℤ) → InInt vni → vni_from_bridge_name (bridge_name vni) ≡ ok vni
unfolding vni_from_bridge_name bridge_name
vni_from_bridge_name-bridge_name vni h =
    ap (λ t. number (bridge_name vni) (atoi t)) (trim_prefix-append bridge_prefix (itoa vni))
    ∙ ap (number (bridge_name vni)) (atoi-itoa vni h)

pub vrf_for_host_leg-veth_legs_for_vrf :
    (vrf : Text) → vrf_for_host_leg (veth_legs_for_vrf vrf).0 ≡ vrf
unfolding vrf_for_host_leg veth_legs_for_vrf
vrf_for_host_leg-veth_legs_for_vrf vrf = trim_prefix-append host_veth_prefix vrf

abbrev first_code : Text → ℕ
first_code [] = 0
first_code (c ∷ t) = c

legs_differ : (v w : Text) → (veth_legs_for_vrf v).0 ≢ (veth_legs_for_vrf w).1
unfolding veth_legs_for_vrf
legs_differ v w e = let h : ◌≡◌ {A = ℕ} 104 112 = ap first_code e in absurd (omega arith)

pe_leg-injective : (v w : Text) → (veth_legs_for_vrf v).1 ≡ (veth_legs_for_vrf w).1 → v ≡ w
unfolding veth_legs_for_vrf
pe_leg-injective v w e =
    cc (trim_prefix-append pe_veth_prefix v, trim_prefix-append pe_veth_prefix w)

-- Interfaces of different VNIs have different names, and so have both legs of different VRFs, for
-- VNIs in the range of an int; and no host leg has the name of a leg in a router's namespace.
pub names_injective :
    (a b : ℤ) (v w : Text)
    → InInt a
    → InInt b
    → ((bridge_name a ≡ bridge_name b) ↔ (a ≡ b))
      × ((vxlan_name a ≡ vxlan_name b) ↔ (a ≡ b))
      × (((veth_legs_for_vrf v).0 ≡ (veth_legs_for_vrf w).0) ↔ (v ≡ w))
      × (((veth_legs_for_vrf v).1 ≡ (veth_legs_for_vrf w).1) ↔ (v ≡ w))
      × ((veth_legs_for_vrf v).0 ≢ (veth_legs_for_vrf w).1)
names_injective a b v w p q = (
  (
    λ e. cc (vni_from_bridge_name-bridge_name a p, vni_from_bridge_name-bridge_name b q),
    ap bridge_name,
  ),
  (λ e. cc (vni_from_vxlan_name-vxlan_name a p, vni_from_vxlan_name-vxlan_name b q), ap vxlan_name),
  (
    λ e. cc (vrf_for_host_leg-veth_legs_for_vrf v, vrf_for_host_leg-veth_legs_for_vrf w),
    ap (λ vrf. (veth_legs_for_vrf vrf).0),
  ),
  (pe_leg-injective v w, ap (λ vrf. (veth_legs_for_vrf vrf).1)),
  legs_differ v w,
)
