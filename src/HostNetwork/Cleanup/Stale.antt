-- ===== src/HostNetwork/Cleanup/Stale.antt =====
-- internal/hostnetwork/vni.go: what clearLinks and RemoveNonConfiguredVNIs delete.
use pierre.Base.{
  ℤ, eq_int_iff, String, ◌≡◌, ◌⊎◌, refl, ap, Bool, true, false, not, ◌&&◌, some, List, [], ◌∷◌,
  Text, codes, eq_text, contains, In, here, there, In-contains, keep, All, Result, ok, err, arith,
  Bool-cases, Result-cases, inl, inr,
}
use pierre.Base.Decimal.{InInt}
use pierre.Base.Exec.{Exec, annotate, each}
use pierre.HostNetwork.Params.{VniParams}
use pierre.HostNetwork.Netlink.{Netlink, Link, link_type}
use pierre.HostNetwork.Names.{
  bridge_name, vxlan_name, veth_legs_for_vrf, vrf_for_host_leg, vrf_for_host_leg-veth_legs_for_vrf,
  vni_from_bridge_name, vni_from_vxlan_name, vni_from_bridge_name-bridge_name,
  vni_from_vxlan_name-vxlan_name,
}
use pierre.HostNetwork.Cleanup.{
  contains_int, vrfs_of, vnis_of, is_host_leg, clear_links, remove_host_leg,
}

-- The VNI that a name stands for is none of those configured.
abbrev unwanted : List ℤ → Result ℤ → Bool
unwanted vnis (ok vni) = not (contains_int vnis vni)
unwanted vnis (err _) = false

-- The links of a type that belong to no VNI that is configured.
abbrev pub stale : Text → List ℤ → (Text → Result ℤ) → Link → Bool
stale type vnis vni_from_name l =
    eq_text (link_type l.kind) type && unwanted vnis (vni_from_name l.name)

-- A link is of another type, or it has a name with a number.
abbrev pub IsNumbered : Text → (Text → Result ℤ) → Link → Type 0
IsNumbered type vni_from_name l =
    (eq_text (link_type l.kind) type ≡ false) ⊎ ((vni : ℤ) × (vni_from_name l.name ≡ ok vni))

-- A host's leg of no VRF that is configured; a VRF that is not configured.
abbrev pub stale_leg : List Text → Link → Bool
stale_leg vrfs l = is_host_leg l && not (contains vrfs (vrf_for_host_leg l.name))

abbrev pub stale_vrf : List Text → Link → Bool
stale_vrf vrfs l = eq_text (link_type l.kind) (codes "vrf") && not (contains vrfs l.name)

-- A link like `l`, with another name.
abbrev pub renamed : Text → Link → Link
renamed name l = record l { name = name }

module _ {State Ns : Type 0} (nl : Netlink State Ns) where
  -- The links are deleted one by one, in order, up to the first that cannot be deleted.
  abbrev pub delete_all : String → List Link → Exec State Unit
  delete_all message = each (λ l. annotate message (nl.link_del (some l)))

  -- Where each link of the type has a name with a number, clearLinks deletes exactly those whose
  -- number is not configured, in the order in which they are listed.
  pub clear_links_lem :
      (type : Text) (vnis : List ℤ) (vni_from_name : Text → Result ℤ) (links : List Link)
      → All (IsNumbered type vni_from_name) links
      → (s : State)
      → clear_links nl type vnis links vni_from_name s
        ≡ delete_all "failed to delete link" (keep (stale type vnis vni_from_name) links) s
  unfolding clear_links each
  clear_links_lem type vnis vni_from_name [] h s = refl
  clear_links_lem type vnis vni_from_name (l ∷ ls) (named, rest) s =
      elim (Bool-cases (eq_text (link_type l.kind) type)) [
        | inr e ↦ ground (arith, e, clear_links_lem type vnis vni_from_name ls rest s)
        | inl e ↦ elim named [
          | inl n ↦ ground (arith, e, n)
          | inr (vni, p) ↦ elim (Bool-cases (contains_int vnis vni)) [
            | inl c ↦ ground (arith, e, p, c, clear_links_lem type vnis vni_from_name ls rest s)
            | inr c ↦ elim (Result-cases (nl.link_del (some l) s).0) [
              | inl (u, d) ↦ ground (
                arith,
                e,
                p,
                c,
                d,
                clear_links_lem type vnis vni_from_name ls rest (nl.link_del (some l) s).1,
              )
              | inr (x, d) ↦ ground (arith, e, p, c, d)
            ]
          ]
        ]
      ]

  -- The loop over the host's links deletes exactly the legs of VRFs that are not configured.
  remove_host_legs_lem :
      (vrfs : List Text) (links : List Link) (s : State)
      → each (remove_host_leg nl vrfs) links s
        ≡ delete_all "remove host leg" (keep (stale_leg vrfs) links) s
  unfolding each remove_host_leg
  remove_host_legs_lem vrfs [] s = refl
  remove_host_legs_lem vrfs (l ∷ ls) s = elim (Bool-cases (stale_leg vrfs l)) [
    | inr e ↦ ground (arith, e, remove_host_legs_lem vrfs ls s)
    | inl e ↦ elim (Result-cases (nl.link_del (some l) s).0) [
      | inl (u, d) ↦ ground (arith, e, d, remove_host_legs_lem vrfs ls (nl.link_del (some l) s).1)
      | inr (x, d) ↦ ground (arith, e, d)
    ]
  ]

contains_int-In : (vnis : List ℤ) (a : ℤ) → In a vnis → contains_int vnis a ≡ true
unfolding contains_int
contains_int-In [] a m = elim m [ ]
contains_int-In (x ∷ xs) a (here e) = ground (arith, eq_int_iff x a)
contains_int-In (x ∷ xs) a (there m) = ground (arith, contains_int-In xs a m)

vni-In : (ps : List VniParams) (p : VniParams) → In p ps → In p.vni (vnis_of ps)
unfolding vnis_of
vni-In [] p m = elim m [ ]
vni-In (q ∷ ps) p (here e) = here (ap (λ (x : VniParams). x.vni) e)
vni-In (q ∷ ps) p (there m) = there (vni-In ps p m)

vrf-In : (ps : List VniParams) (p : VniParams) → In p ps → In p.vrf (vrfs_of ps)
unfolding vrfs_of
vrf-In [] p m = elim m [ ]
vrf-In (q ∷ ps) p (here e) = here (ap (λ (x : VniParams). x.vrf) e)
vrf-In (q ∷ ps) p (there m) = there (vrf-In ps p m)

-- The interfaces of a VNI that is configured are never among those that are deleted, whatever
-- their kind: what has the name of its bridge, of its VXLAN, of the host's leg of its VRF, or of
-- the VRF. The VNI is in the range of an int.
pub configured_kept :
    (ps : List VniParams) (p : VniParams)
    → In p ps
    → InInt p.vni
    → (l : Link)
    → (stale (codes "bridge") (vnis_of ps) vni_from_bridge_name (renamed (bridge_name p.vni) l)
        ≡ false)
      × (stale (codes "vxlan") (vnis_of ps) vni_from_vxlan_name (renamed (vxlan_name p.vni) l)
          ≡ false)
      × (stale_leg (vrfs_of ps) (renamed (veth_legs_for_vrf p.vrf).0 l) ≡ false)
      × (stale_vrf (vrfs_of ps) (renamed p.vrf l) ≡ false)
configured_kept ps p m h l =
    let number = contains_int-In (vnis_of ps) p.vni (vni-In ps p m) in
    let name = In-contains (vrfs_of ps) p.vrf (vrf-In ps p m) in
    (
      rw (vni_from_bridge_name-bridge_name p.vni h, number) (ground arith),
      rw (vni_from_vxlan_name-vxlan_name p.vni h, number) (ground arith),
      rw (vrf_for_host_leg-veth_legs_for_vrf p.vrf, name) (ground arith),
      rw name (ground arith),
    )
