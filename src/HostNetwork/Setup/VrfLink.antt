-- ===== src/HostNetwork/Setup/VrfLink.antt =====
-- internal/hostnetwork/vrf.go: setupVRF leaves a VRF of its name.
use pierre.Base.{ℕ, ap, ◌≡◌, Option, none, some, Text, Result, ok, err, Option-cases, inl, inr}
use pierre.Base.Exec.{lift, attempt, replace}
use pierre.Base.Keeps.{Keeps-lift}
use pierre.Base.Triple.{
  Triple, Triple-bind, Triple-replace, Triple-pure, Triple-keeps, Triple-given,
}
use pierre.HostNetwork.Netlink.{Netlink, Link, new_link, vrf}
use pierre.HostNetwork.Added.{AddKeeps}
use pierre.HostNetwork.Kernel.{View, Kernel}
use pierre.HostNetwork.Setup.{
  Inv, Named, Found, Looked, Held, lookup_lem, add_lem, quiet_lem, replaced_lem, created_lem,
  Found-stays,
}
use pierre.HostNetwork.Vrf
use pierre.HostNetwork.Vrf.{
  vrf_table, create_vrf, ensure_vrf, setup_vrf, find_free_routing_table_id,
}

abbrev pub IsVrf : Link → Type 0
IsVrf l = (table : ℕ) × (vrf_table l.kind ≡ some table)

module _ {State Ns : Type 0} (nl : Netlink State Ns) (v : View State Ns) (kernel : Kernel nl v)
    (keeps : AddKeeps nl) (ns : Ns) (name : Text) (s0 : State) where
  abbrev I : State → Type 0
  I = Inv nl v kernel ns name s0

  abbrev At : (Link → Type 0) → Link → State → Type 0
  At P l t = Found nl v kernel ns name s0 l t × P l

  create_vrf_triple : Triple I (create_vrf nl name) (At IsVrf)
  unfolding create_vrf
  create_vrf_triple =
      Triple-bind (λ _. I) (replace "Failed to find links" nl.link_list) _
        (Triple-replace _ _ (quiet_lem nl v kernel ns name s0 nl.link_list kernel.link_list))
        (λ links.
          Triple-bind (λ _. I) (lift (find_free_routing_table_id links)) _
            (Triple-keeps _ (Keeps-lift (find_free_routing_table_id links)))
            (λ table. Triple-replace _ _ (
              add_lem nl v kernel ns name s0 IsVrf 0 (vrf table) (λ s t l h.
                let (named, _, kind) = keeps (new_link name 0 (vrf table)) l s t h in
                (named, (table, ap vrf_table kind))))))

  checked_triple :
      (link : Option Link)
      → Triple (Held nl v kernel ns name s0 link) (Vrf.checked nl name link) (At IsVrf)
  unfolding Vrf.checked Vrf.replace_vrf
  checked_triple none =
      replaced_lem nl v kernel ns name s0 IsVrf (create_vrf nl name) create_vrf_triple
        "failed to delete link" "failed to create vrf" none tt
  checked_triple (some l) = elim (Option-cases (vrf_table l.kind)) [
    | inr (table, e) ↦ rw (e, Vrf.checked) (Triple-pure l (λ s f. (f, (table, e))))
    | inl e ↦
        rw (e, Vrf.checked)
          (Triple-given {F = Named nl v kernel ns name s0 l} (Vrf.replace_vrf nl name (some l))
            (λ s f. (f.named, f.inv))
            (λ d.
              replaced_lem nl v kernel ns name s0 IsVrf (create_vrf nl name) create_vrf_triple
                "failed to delete link" "failed to create vrf" (some l) d))
  ]

  found_triple :
      (r : Result Link)
      → Triple
          (Looked nl v kernel ns name s0 r)
          (Vrf.found_or_created nl name r)
          (Held nl v kernel ns name s0)
  unfolding Vrf.found_or_created
  found_triple (ok l) = Triple-pure (some l) (λ s f. f)
  found_triple (err e) =
      created_lem nl v kernel ns name s0 IsVrf (create_vrf nl name) create_vrf_triple
        "failed to create vrf" e

  -- Where setupVRF succeeds, a VRF of the name is there, and the other VRFs and bridges still are.
  pub setup_vrf_triple : Triple I (setup_vrf nl name) (At IsVrf)
  unfolding setup_vrf ensure_vrf
  setup_vrf_triple =
      Triple-bind (At IsVrf) (ensure_vrf nl name) _
        (Triple-bind (Looked nl v kernel ns name s0) (attempt (nl.link_by_name name)) _
          (lookup_lem nl v kernel ns name s0)
          (λ r.
            Triple-bind (Held nl v kernel ns name s0) (Vrf.found_or_created nl name r) _
              (found_triple r) (λ link. checked_triple link)))
        (λ l.
          Triple-bind (λ _. At IsVrf l)
            (replace "could not set link up for VRF" (nl.link_set_up (some l))) _
            (Triple-replace _ _ (
              Found-stays nl v kernel ns name s0 IsVrf l (nl.link_set_up (some l))
                (kernel.link_set_up (some l))))
            (λ _. Triple-pure l (λ s f. f)))
