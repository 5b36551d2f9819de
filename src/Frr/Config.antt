-- ===== src/Frr/Config.antt =====
-- internal/frr/config.go: the data of the FRR configuration, and the functions that its templates
-- call.
use pierre.Base.{
  length, ◌%◌, ℕ, ◌+◌, ℤ, Bool, false, not, ◌&&◌, Option, none, some, List, [], ◌∷◌, Text, Result,
  ok, err, errorf, eq_text, ◌==◌, if◌then◌else◌,
}
use pierre.IpFamily.{Family, ipv6, family_string}

pub record NeighborConfig : Type 0 where
  pub name : Text
  pub asn : ℕ  -- uint32
  pub addr : Text
  pub port : Option ℕ  -- *uint16
  pub hold_time : Option ℕ  -- *uint64, seconds
  pub keepalive_time : Option ℕ
  pub connect_time : Option ℕ
  pub password : Text
  pub bfd_profile : Text
  pub ebgp_multi_hop : Bool
  pub ip_family : Option Family  -- `none` is the empty string of a field that was not set

-- NeighborConfig.ID
unfoldable pub id : NeighborConfig → Text
id n = n.addr

pub record UnderlayConfig : Type 0 where
  pub my_asn : ℕ  -- uint32
  pub vtep : Text
  pub neighbors : List NeighborConfig

pub record VniConfig : Type 0 where
  pub asn : ℕ  -- uint32
  pub to_advertise : List Text
  pub local_neighbor : Option NeighborConfig
  pub vrf : Text
  pub vni : ℤ

pub record Config : Type 0 where
  pub loglevel : Text
  pub hostname : Text
  pub underlay : UnderlayConfig
  pub vnis : List VniConfig

-- The template function mustDisableConnectedCheck.
unfoldable pub must_disable_connected_check : Option Family → ℕ → ℕ → Bool → Bool
must_disable_connected_check (some ipv6) my_asn asn ebgp_multi_hop =
    not (my_asn == asn) && not ebgp_multi_hop
must_disable_connected_check _ my_asn asn ebgp_multi_hop = false

-- The template function activateNeighborFor.
unfoldable pub activate_neighbor_for : Text → Option Family → Bool
activate_neighbor_for ip_family none = eq_text [] ip_family
activate_neighbor_for ip_family (some f) = eq_text (family_string f) ip_family

-- The arguments of the template function dict: a string, or any other value.
pub data Value {ℓ} (A : Type ℓ) : Type ℓ where
  str : Text → Value A
  other : A → Value A

-- The loop of dict. What is stored last stands first, so that it is found first.
dict_from {ℓ} :
    {A : Type ℓ} → List (Text × Value A) → List (Value A) → Result (List (Text × Value A))
dict_from d [] = ok d
dict_from d (k ∷ []) = ok d
dict_from d (str k ∷ v ∷ rest) = dict_from ((k, v) ∷ d) rest
dict_from d (other a ∷ v ∷ rest) = err (errorf "dict keys must be strings")

-- The template function dict: names and values in turn.
unfoldable pub dict {ℓ} : {A : Type ℓ} → List (Value A) → Result (List (Text × Value A))
unfolding dict_from
dict values =
    if length values % 2 == 0
    then dict_from [] values
    else err (errorf "invalid dict call, expecting even number of args")

-- The template function counter: the count of a name goes up, and is returned.
unfoldable pub counter : Text → List (Text × ℕ) → ℕ × List (Text × ℕ)
counter name [] = (1, (name, 1) ∷ [])
counter name ((k, n) ∷ m) =
    let (c, m') = counter name m in
    if eq_text k name then (n + 1, (k, n + 1) ∷ m) else (c, (k, n) ∷ m')
