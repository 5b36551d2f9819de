-- ===== src/HostNetwork/Setup/VxlanLink.antt =====
-- internal/hostnetwork/vxlan.go: setupVXLan leaves the VXLAN of the VNI.
use pierre.Base.{
  ℕ, ◌≡◌, refl, Option, none, some, [], ◌∷◌, Text, Result, ok, err, Option-cases, inl, inr,
}
use pierre.Base.Exec.{Exec, attempt, annotate, replace}
use pierre.Base.Triple.{
  Triple, Triple-bind, Triple-annotate, Triple-replace, Triple-pure, Triple-given,
}
use pierre.Net.{Net}
use pierre.HostNetwork.Params.{VniParams}
use pierre.HostNetwork.Names.{vxlan_name}
use pierre.HostNetwork.Netlink.{Netlink, Link, new_link, vxlan}
use pierre.HostNetwork.Added.{AddKeeps}
use pierre.HostNetwork.Kernel.{View, Kernel}
use pierre.HostNetwork.Properties.{addr_gen_mode_none, set_neigh_suppression}
use pierre.HostNetwork.Vxlan
use pierre.HostNetwork.Vxlan.{
  underlay_loopback, vxlan_attrs, wanted_attrs, create_vxlan, typed, check, kept_or_replaced,
  ensure_vxlan, setup_vxlan,
}
use pierre.HostNetwork.Vxlan.Configured.{IsFor, of_created, accepted}
use pierre.HostNetwork.Setup.{
  Inv, Found, Looked, Held, Deletable, lookup_lem, add_lem, quiet_lem, replaced_lem, created_lem,
  Found-stays, addr_gen_triple,
}

module _ {State Ns : Type 0} (nl : Netlink State Ns) (net : Net) (v : View State Ns)
    (kernel : Kernel nl v) (keeps : AddKeeps nl) (ns : Ns) (params : VniParams) (bridge_link : Link)
    (s0 : State) where
  abbrev name : Text
  name = vxlan_name params.vni

  abbrev I : State → Type 0
  I = Inv nl v kernel ns name s0

  abbrev Is : Link → Type 0
  Is = IsFor net params bridge_link

  abbrev At : Link → State → Type 0
  At l t = Found nl v kernel ns name s0 l t × Is l

  create_vxlan_triple : Triple I (create_vxlan nl net params bridge_link) At
  unfolding create_vxlan
  create_vxlan_triple =
      Triple-bind (λ _. I)
        (annotate "failed to get loopback by name" (nl.link_by_name underlay_loopback)) _
        (Triple-annotate _ _ (
          quiet_lem nl v kernel ns name s0 (nl.link_by_name underlay_loopback)
            (kernel.link_by_name underlay_loopback)))
        (λ loopback. Triple-annotate _ _ (
          add_lem nl v kernel ns name s0 Is bridge_link.index
            (vxlan (wanted_attrs net params loopback.index))
            (λ s t l h.
              let (named, _, _) =
                keeps
                  (new_link name bridge_link.index (vxlan (wanted_attrs net params loopback.index)))
                  l s t h in
              (named, of_created nl net keeps params bridge_link loopback l s t h))))

  replace_vxlan_triple :
      (link : Option Link)
      → Deletable nl v kernel ns name s0 link
      → Triple I (Vxlan.replace_vxlan nl net params bridge_link link) At
  unfolding Vxlan.replace_vxlan
  replace_vxlan_triple link d =
      replaced_lem nl v kernel ns name s0 Is (create_vxlan nl net params bridge_link)
        create_vxlan_triple "failed to delete link" "failed to create vxlan" link d

  -- What is there under the name, of whatever type and settings.
  abbrev There : Link → State → Type 0
  There = Found nl v kernel ns name s0

  weakened : (m : Exec State Link) → Triple I m At → Triple I m There
  weakened m k = record { after = λ s t a i h. (k.after s t a i h).0 }

  typed_triple :
      (link : Option Link)
      → Deletable nl v kernel ns name s0 link
      → Triple (Held nl v kernel ns name s0 link) (typed nl net params bridge_link link) There
  unfolding typed
  typed_triple none d = weakened _ (replace_vxlan_triple none d)
  typed_triple (some l) d = elim (Option-cases (vxlan_attrs l.kind)) [
    | inr (a, e) ↦ rw (e, typed) (Triple-pure l (λ s f. f))
    | inl e ↦
        rw (e, typed)
          (Triple-given {F = Unit {0}} (Vxlan.replace_vxlan nl net params bridge_link (some l))
            (λ s f. (tt, f.inv)) (λ _. weakened _ (replace_vxlan_triple (some l) d)))
  ]

  kept_triple :
      (link : Option Link) (k : Link) (loopback_index : ℕ) (r : Result (Unit {0}))
      → Deletable nl v kernel ns name s0 link
      → check nl net k bridge_link.index loopback_index params ≡ r
      → Triple (There k) (kept_or_replaced nl net params bridge_link link k r) At
  unfolding kept_or_replaced
  kept_triple link k loopback_index (ok _) d c =
      Triple-pure k (λ s f. (f, accepted nl net keeps params bridge_link k loopback_index c))
  kept_triple link k loopback_index (err e) d c =
      Triple-given {F = Unit {0}} (Vxlan.replace_vxlan nl net params bridge_link link)
        (λ s f. (tt, f.inv)) (λ _. replace_vxlan_triple link d)

  found_vxlan_triple :
      (r : Result Link)
      → Triple
          (Looked nl v kernel ns name s0 r)
          (Vxlan.found_or_created nl net params bridge_link r)
          (Held nl v kernel ns name s0)
  unfolding Vxlan.found_or_created
  found_vxlan_triple (ok l) = Triple-pure (some l) (λ s f. f)
  found_vxlan_triple (err e) =
      created_lem nl v kernel ns name s0 Is (create_vxlan nl net params bridge_link)
        create_vxlan_triple "failed to create vxlan" e

  Held-Deletable :
      (link : Option Link) (s : State)
      → Held nl v kernel ns name s0 link s
      → Deletable nl v kernel ns name s0 link
  Held-Deletable none s i = tt
  Held-Deletable (some l) s f = f.named

  ensure_vxlan_triple : Triple I (ensure_vxlan nl net params bridge_link) At
  unfolding ensure_vxlan
  ensure_vxlan_triple =
      Triple-bind (λ _. I)
        (annotate "failed to get loopback by name" (nl.link_by_name underlay_loopback)) _
        (Triple-annotate _ _ (
          quiet_lem nl v kernel ns name s0 (nl.link_by_name underlay_loopback)
            (kernel.link_by_name underlay_loopback)))
        (λ loopback.
          Triple-bind (Looked nl v kernel ns name s0) (attempt (nl.link_by_name name)) _
            (lookup_lem nl v kernel ns name s0)
            (λ r.
              Triple-bind (Held nl v kernel ns name s0)
                (Vxlan.found_or_created nl net params bridge_link r) _ (found_vxlan_triple r)
                (λ link.
                  Triple-given {F = Deletable nl v kernel ns name s0 link} _
                    (λ s f. (Held-Deletable link s f, f))
                    (λ d.
                      Triple-bind There (typed nl net params bridge_link link) _
                        (typed_triple link d) (λ k. kept_triple link k loopback.index _ d refl)))))

  neigh_triple : (l : Link) → Triple (At l) (set_neigh_suppression nl l) (λ _. At l)
  unfolding set_neigh_suppression
  neigh_triple l = Triple-annotate _ _ (
      Found-stays nl v kernel ns name s0 Is l (nl.set_protinfo l.index 32 (1 ∷ []))
        (kernel.set_protinfo l.index 32 (1 ∷ [])))

  so_there :
      (l : Link) (m : Exec State Unit)
      → Triple (At l) m (λ _. At l)
      → Triple (At l) m (λ _ t. (k : Link) × At k t)
  so_there l m k = record { after = λ s t a p h. (l, k.after s t a p h) }

  -- Where setupVXLan succeeds, the VXLAN of the VNI is there with the settings of the parameters,
  -- and the VRFs and bridges with other names still are.
  pub setup_vxlan_triple :
      Triple I (setup_vxlan nl net params bridge_link) (λ _ t. (l : Link) × At l t)
  unfolding setup_vxlan
  setup_vxlan_triple =
      Triple-bind At (ensure_vxlan nl net params bridge_link) _ ensure_vxlan_triple (λ l.
        Triple-bind (λ _. At l)
          (annotate "failed to set addr_gen_mode to 1" (addr_gen_mode_none nl l)) _
          (Triple-annotate _ _ (addr_gen_triple nl v kernel ns name s0 Is l))
          (λ _.
            Triple-bind (λ _. At l)
              (annotate "failed to set neigh suppression" (set_neigh_suppression nl l)) _
              (Triple-annotate _ _ (neigh_triple l))
              (λ _.
                (so_there l (replace "could not set link up for vxlan" (nl.link_set_up (some l))) (
                  Triple-replace _ _ (
                    Found-stays nl v kernel ns name s0 Is l (nl.link_set_up (some l))
                      (kernel.link_set_up (some l))))))))
