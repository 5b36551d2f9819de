-- ===== src/IpFamily/Laws.antt =====
-- internal/ipfamily/ipfamily.go: which families are found, and when none is.
use pierre.Base.{◌≡◌, ◌≢◌, ◌↔◌, not, Option, none, some, List, [], ◌∷◌, Text, arith}
use pierre.Net.{Net, Ip, is_v4}
use pierre.IpFamily.{dual_stack, unknown, for_addresses, for_address}

-- Two addresses, the one IPv4 and the other IPv6.
abbrev pub Mixed : Option Ip → Option Ip → Type 0
Mixed (some i) (some j) = is_v4 i ≡ not (is_v4 j)
Mixed _ _ = ⊥

abbrev pub IsMixedPair : Net → List Text → Type 0
IsMixedPair net (a ∷ b ∷ []) = Mixed (net.parse_ip a) (net.parse_ip b)
IsMixedPair net _ = ⊥

module _ (net : Net) where
  -- The family is unknown exactly when an error is returned, and it is dual exactly for a pair of
  -- one IPv4 and one IPv6 address.
  pub for_addresses_lem :
      (ips : List Text)
      → (((for_addresses net ips).0 ≡ unknown) ↔ ((for_addresses net ips).1 ≢ none))
        × (((for_addresses net ips).0 ≡ dual_stack) ↔ IsMixedPair net ips)
  unfolding for_addresses for_address
  for_addresses_lem [] = ground arith
  for_addresses_lem (a ∷ []) = ground arith
  for_addresses_lem (a ∷ b ∷ []) = ground arith
  for_addresses_lem (a ∷ b ∷ c ∷ ips) = ground arith
