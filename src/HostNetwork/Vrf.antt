-- ===== src/HostNetwork/Vrf.antt =====
-- internal/hostnetwork/vrf.go: the VRF of a VNI, and the choice of its routing table.
pub mod Tables
use pierre.Base.{
  ℕ, zero, suc, ◌+◌, ◌-◌, ◌==◌, Bool, true, false, ◌||◌, Option, none, some, List, [], ◌∷◌, Text,
  Error, errorf, Result, ok, err, is_not_found, if◌then◌else◌, keep,
}
use pierre.Base.Exec.{Exec, pure, raise, lift, attempt, annotate, replace, ◌>>=◌, ◌>>◌}
use pierre.HostNetwork.Netlink.{Netlink, Link, Kind, vrf, new_link}

abbrev pub max_uint32 : ℕ
max_uint32 = 4294967295

-- `l.(*netlink.Vrf)`: the table of a VRF.
abbrev pub vrf_table : Kind → Option ℕ
vrf_table (vrf table) = some table
vrf_table _ = none

-- The tables that are taken.
unfoldable pub taken_tables : List Link → List ℕ
taken_tables [] = []
taken_tables (l ∷ ls) =
    let rest = taken_tables ls in elim (vrf_table l.kind) [ none ↦ rest | some t ↦ t ∷ rest ]

unfoldable pub member : ℕ → List ℕ → Bool
member a [] = false
member a (x ∷ xs) = a == x || member a xs

-- The loop over `res`, with the rounds that are left of it.
unfoldable pub find_from : List ℕ → ℕ → ℕ → Result ℕ
unfolding member
find_from taken zero res = err (errorf "Failed to find an available routing id")
find_from taken (suc left) res =
    let rest = find_from taken left (suc res) in if member res taken then rest else ok res

-- `for res := uint32(1); res < math.MaxUint32; res++`
unfoldable pub find_free_routing_table_id : List Link → Result ℕ
find_free_routing_table_id links = find_from (taken_tables links) (max_uint32 - 1) 1

module _ {State Ns : Type 0} (nl : Netlink State Ns) where
  open nl use {link_by_name, link_list, link_add, link_del, link_set_up}

  unfoldable pub create_vrf : Text → Exec State Link
  create_vrf name = do
    links ← replace "Failed to find links" link_list
    table ← lift (find_free_routing_table_id links)
    replace "could not add VRF" (link_add (new_link name 0 (vrf table)))

  -- The link of this name; one that is not there is created, one that is not a VRF replaced. An
  -- error other than "not found" leaves no link.
  unfoldable pub found_or_created : Text → Result Link → Exec State (Option Link)
  unfolding create_vrf
  found_or_created name (ok l) = pure (some l)
  found_or_created name (err e) =
      if is_not_found e
      then (do l ← annotate "failed to create vrf" (create_vrf name); pure (some l))
      else pure none

  unfoldable pub replace_vrf : Text → Option Link → Exec State Link
  unfolding create_vrf
  replace_vrf name link = do
    annotate "failed to delete link" (link_del link)
    annotate "failed to create vrf" (create_vrf name)

  unfoldable pub checked : Text → Option Link → Exec State Link
  unfolding replace_vrf
  checked name none = replace_vrf name none
  checked name (some l) = elim (vrf_table l.kind) [
    | some _ ↦ pure l
    | none ↦ replace_vrf name (some l)
  ]

  -- setupVRF up to the call of LinkSetUp.
  unfoldable pub ensure_vrf : Text → Exec State Link
  unfolding found_or_created checked
  ensure_vrf name = do
    r ← attempt (link_by_name name)
    link ← found_or_created name r
    checked name link

  unfoldable pub setup_vrf : Text → Exec State Link
  unfolding ensure_vrf
  setup_vrf name = do
    l ← ensure_vrf name
    replace "could not set link up for VRF" (link_set_up (some l))
    pure l
