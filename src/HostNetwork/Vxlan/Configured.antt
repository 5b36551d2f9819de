-- ===== src/HostNetwork/Vxlan/Configured.antt =====
-- internal/hostnetwork/vxlan.go: the VXLAN that is set up is the one that was asked for.
use pierre.Base.{
  Option-cases, inl, inr, ℕ, eq_int_iff, ◌≡◌, ◌↔◌, refl, true, false, Option, none, some, Result,
  ok, err, Error, arith, is_not_found,
}
use pierre.Base.Exec.{attempt, annotate, Ensures, Ensures-bind, Ensures-annotate, Ensures-pure}
use pierre.Net.{Net, Ip, v4, v6}
use pierre.HostNetwork.Params.{VniParams}
use pierre.HostNetwork.Netlink.{Netlink, Link, vxlan, VxlanAttrs, new_link}
use pierre.HostNetwork.Added.{AddKeeps}
use pierre.HostNetwork.Names.{vxlan_name}
use pierre.HostNetwork.Vxlan.{
  underlay_loopback, vxlan_attrs, same_address, vtep_address, check_vxlan_configured, wanted_attrs,
  create_vxlan, ensure_vxlan, found_or_created, typed, check, kept_or_replaced, replace_vxlan,
}

same_address_refl : (a : Option Ip) → same_address a a ≡ true
same_address_refl none = refl
same_address_refl (some (v4 a)) = ground arith
same_address_refl (some (v6 a)) = ground arith

module _ (net : Net) where
  -- The check accepts exactly the links with the wanted master, VNI, port, source address and
  -- underlying device, and with learning off.
  pub check_vxlan_configured_iff :
      (link : Link) (a : VxlanAttrs) (bridge_index loopback_index : ℕ) (params : VniParams)
      → (check_vxlan_configured net link a bridge_index loopback_index params ≡ ok tt) ↔ (
          (link.master_index ≡ bridge_index)
          × (a.vxlan_id ≡ params.vni)
          × (a.port ≡ params.vxlan_port)
          × (a.learning ≡ false)
          × (same_address a.src_addr (vtep_address net params) ≡ true)
          × (a.vtep_dev_index ≡ loopback_index))
  unfolding check_vxlan_configured
  check_vxlan_configured_iff link a bridge_index loopback_index params =
      ground (arith, eq_int_iff a.vxlan_id params.vni, eq_int_iff a.port params.vxlan_port)

  -- The settings that must hold of the VXLAN of a VNI.
  pub record IsFor (params : VniParams) (bridge_link : Link) (l : Link) : Type 0 where
    pub attrs : VxlanAttrs
    pub is_vxlan : vxlan_attrs l.kind ≡ some attrs
    pub master : l.master_index ≡ bridge_link.index
    pub id : attrs.vxlan_id ≡ params.vni
    pub port : attrs.port ≡ params.vxlan_port
    pub learning : attrs.learning ≡ false
    pub source : same_address attrs.src_addr (vtep_address net params) ≡ true

module _ {State Ns : Type 0} (nl : Netlink State Ns) (net : Net) (keeps : AddKeeps nl)
    (params : VniParams) (bridge_link : Link) where
  pub of_created :
      (loopback l : Link) (s t : State)
      → nl.link_add
          (new_link
            (vxlan_name params.vni)
            bridge_link.index
            (vxlan (wanted_attrs net params loopback.index)))
          s
        ≡ (ok l, t)
      → IsFor net params bridge_link l
  unfolding wanted_attrs
  of_created loopback l s t h =
      let (_, master, kind) = keeps _ l s t h in
      record {
        attrs = wanted_attrs net params loopback.index;
        is_vxlan = rw kind refl;
        master = master;
        id = refl;
        port = refl;
        learning = refl;
        source = same_address_refl (vtep_address net params);
      }

  created : Ensures (IsFor net params bridge_link) (create_vxlan nl net params bridge_link)
  unfolding create_vxlan
  created =
      Ensures-bind (annotate "failed to get loopback by name" (nl.link_by_name underlay_loopback)) _
        (λ loopback.
          Ensures-annotate "failed to create vxlan" _
            (record { at = λ s t l h. of_created loopback l s t h }))

  pub accepted :
      (l : Link) (loopback_index : ℕ)
      → check nl net l bridge_link.index loopback_index params ≡ ok tt
      → IsFor net params bridge_link l
  unfolding check
  accepted l loopback_index h = elim (Option-cases (vxlan_attrs l.kind)) [
    | inl e ↦ ground (arith, e)
    | inr (a, e) ↦
        let (master, id, port, learning, source, _) =
          (check_vxlan_configured_iff net l a bridge_link.index loopback_index params).0
            (ground (arith, e)) in
        record {
          attrs = a;
          is_vxlan = e;
          master = master;
          id = id;
          port = port;
          learning = learning;
          source = source;
        }
  ]

  kept_or_replaced_lem :
      (link : Option Link) (k : Link) (loopback_index : ℕ) (r : Result (Unit {0}))
      → check nl net k bridge_link.index loopback_index params ≡ r
      → Ensures (IsFor net params bridge_link) (kept_or_replaced nl net params bridge_link link k r)
  unfolding kept_or_replaced replace_vxlan
  kept_or_replaced_lem link k loopback_index (ok _) c = Ensures-pure k (accepted k loopback_index c)
  kept_or_replaced_lem link k loopback_index (err e) c =
      Ensures-bind (annotate "failed to delete link" (nl.link_del link)) _ (λ _.
        Ensures-annotate "failed to create vxlan" (create_vxlan nl net params bridge_link) created)

  -- Whatever the machine looked like before, and however often LinkAdd, LinkDel and the lookups
  -- fail: if setupVXLan gets as far as a VXLAN, this has the VNI, the port and the source address of
  -- the parameters and the bridge as its master, and learning is off. LinkAdd changes nothing of its
  -- argument but the index.
  ensure_vxlan_lem : Ensures (IsFor net params bridge_link) (ensure_vxlan nl net params bridge_link)
  unfolding ensure_vxlan
  ensure_vxlan_lem =
      Ensures-bind (annotate "failed to get loopback by name" (nl.link_by_name underlay_loopback)) _
        (λ loopback. Ensures-bind (attempt (nl.link_by_name (vxlan_name params.vni))) _ (λ r.
          Ensures-bind (found_or_created nl net params bridge_link r) _ (λ link.
            Ensures-bind (typed nl net params bridge_link link) _
              (λ k. kept_or_replaced_lem link k loopback.index _ refl))))

  -- A VXLAN that is as it should be is left alone: with lookups that change nothing, nothing is
  -- created or deleted.
  ensure_vxlan_unchanged :
      (s : State) (loopback l : Link) (a : VxlanAttrs)
      → nl.link_by_name underlay_loopback s ≡ (ok loopback, s)
      → nl.link_by_name (vxlan_name params.vni) s ≡ (ok l, s)
      → vxlan_attrs l.kind ≡ some a
      → check_vxlan_configured net l a bridge_link.index loopback.index params ≡ ok tt
      → ensure_vxlan nl net params bridge_link s ≡ (ok l, s)
  unfolding ensure_vxlan
  ensure_vxlan_unchanged s loopback l a e f g c = ground (arith, e, f, g, c)

  wanted_check :
      (l loopback : Link) (s t : State)
      → nl.link_add
          (new_link
            (vxlan_name params.vni)
            bridge_link.index
            (vxlan (wanted_attrs net params loopback.index)))
          s
        ≡ (ok l, t)
      → (vxlan_attrs l.kind ≡ some (wanted_attrs net params loopback.index))
        × (check_vxlan_configured net l
              (wanted_attrs net params loopback.index)
              bridge_link.index
              loopback.index
              params
            ≡ ok tt)
  unfolding wanted_attrs
  wanted_check l loopback s t h =
      let (_, master, kind) = keeps _ l s t h in
      (
        rw kind refl,
        (check_vxlan_configured_iff net l (wanted_attrs net params loopback.index) bridge_link.index
              loopback.index params).1
            (master, refl, refl, refl, same_address_refl (vtep_address net params), refl),
      )

  -- A VXLAN that is not there is created by one LinkAdd, and nothing else is changed: what was just
  -- created passes the check, so that it is not deleted again. The lookups change nothing, and LinkAdd changes nothing of its
  -- argument but the index.
  ensure_vxlan_absent :
      (s t : State) (loopback l : Link) (e : Error)
      → nl.link_by_name underlay_loopback s ≡ (ok loopback, s)
      → nl.link_by_name (vxlan_name params.vni) s ≡ (err e, s)
      → is_not_found e ≡ true
      → nl.link_add
          (new_link
            (vxlan_name params.vni)
            bridge_link.index
            (vxlan (wanted_attrs net params loopback.index)))
          s
        ≡ (ok l, t)
      → ensure_vxlan nl net params bridge_link s ≡ (ok l, t)
  unfolding ensure_vxlan create_vxlan
  ensure_vxlan_absent s t loopback l e f g absent added =
      let (attrs, c) = wanted_check l loopback s t added in
      ground (arith, f, g, absent, added, attrs, c)
