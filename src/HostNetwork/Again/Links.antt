-- ===== src/HostNetwork/Again/Links.antt =====
-- internal/hostnetwork: setupVRF, setupBridge and setupVXLan on links that are in place.
use pierre.Base.{ℕ, subst, sym, ◌≡◌, refl, Option, some, Text, ok, true}
use pierre.Base.Exec.{Exec, attempt, annotate, replace, ◌>>=◌}
use pierre.Base.Keeps.{Keeps, Keeps-bind, Keeps-annotate, Keeps-replace}
use pierre.Base.Gives.{
  Gives, Gives-bind, Gives-pure, Gives-annotate, Gives-replace, Gives-attempt, Gives-keeps,
  Keeps-gives,
}
use pierre.Net.{Net}
use pierre.HostNetwork.Params.{VniParams}
use pierre.HostNetwork.Names.{bridge_name, vxlan_name}
use pierre.HostNetwork.Netlink.{Netlink, Link, VxlanAttrs}
use pierre.HostNetwork.Elsewhere.{Elsewhere}
use pierre.HostNetwork.Properties.{addr_gen_mode_none, set_neigh_suppression}
use pierre.HostNetwork.Kernel.{View, Kernel}
use pierre.HostNetwork.Vrf
use pierre.HostNetwork.Vrf.{vrf_table, ensure_vrf, setup_vrf}
use pierre.HostNetwork.Bridge
use pierre.HostNetwork.Bridge.{is_bridge, ensure_bridge, setup_bridge}
use pierre.HostNetwork.Vxlan
use pierre.HostNetwork.Vxlan.{
  vxlan_attrs, underlay_loopback, check_vxlan_configured, ensure_vxlan, setup_vxlan,
}
use pierre.HostNetwork.Again.{Settled, As, look_lem, found_lem, up, ensured, gen_mode, suppressed}

module _ {State Ns : Type 0} (nl : Netlink State Ns) (net : Net) (v : View State Ns)
    (kernel : Kernel nl v) (away : Elsewhere nl v) (settled : Settled nl v) (here : Ns)
    (s0 : State) where
  module _ (name : Text) (r : Link) (table : ℕ) (is : vrf_table r.kind ≡ some table) where
    vrf_checked :
        Gives (As nl net v kernel away settled here s0) (λ l. l ≡ r) (Vrf.checked nl name (some r))
    unfolding Vrf.checked
    vrf_checked = rw (is, Vrf.checked) (Gives-pure r refl)

    pub vrf_lem :
        v.link s0 here name ≡ some r
        → Gives (As nl net v kernel away settled here s0) (λ l. l ≡ r) (setup_vrf nl name)
    unfolding setup_vrf ensure_vrf Vrf.found_or_created
    vrf_lem e =
        Gives-bind (ensure_vrf nl name) _
          ((ensured nl net v kernel away settled here s0) name r (Vrf.found_or_created nl name)
            (Vrf.checked nl name) e (Gives-pure (some r) refl) vrf_checked)
          (λ l h.
            Gives-bind (replace "could not set link up for VRF" (nl.link_set_up (some l))) _
              (Gives-replace _ _ (Gives-keeps _ ((up nl net v kernel away settled here s0) l)))
              (λ _ _. Gives-pure l h))

  module _ (params : VniParams) (b : Link) (is : is_bridge b.kind ≡ true) where
    bridge_checked :
        (name : Text) (i : ℕ)
        → Gives
            (As nl net v kernel away settled here s0)
            (λ l. l ≡ b)
            (Bridge.checked nl name i (some b))
    unfolding Bridge.checked
    bridge_checked name i = rw (is, Bridge.checked) (Gives-pure b refl)

    pub bridge_lem :
        (r : Link)
        → v.link s0 here (bridge_name params.vni) ≡ some b
        → Gives (As nl net v kernel away settled here s0) (λ l. l ≡ b) (setup_bridge nl params r)
    unfolding setup_bridge ensure_bridge Bridge.found_or_created
    bridge_lem r e =
        let name = bridge_name params.vni in
        Gives-bind (ensure_bridge nl name r.index) _
          ((ensured nl net v kernel away settled here s0) name b
            (Bridge.found_or_created nl name r.index) (Bridge.checked nl name r.index) e
            (Gives-pure (some b) refl) (bridge_checked name r.index))
          (λ l h.
            Gives-bind (annotate "failed to set addr_gen_mode to 1" (addr_gen_mode_none nl l)) _
              (Gives-annotate _ _
                (Gives-keeps _ ((gen_mode nl net v kernel away settled here s0) l)))
              (λ _ _.
                Gives-bind (replace "could not set link up for bridge" (nl.link_set_up (some l))) _
                  (Gives-replace _ _ (Gives-keeps _ ((up nl net v kernel away settled here s0) l)))
                  (λ _ _. Gives-pure l h)))

  module _ (params : VniParams) (b loopback x : Link) (a : VxlanAttrs)
      (is : vxlan_attrs x.kind ≡ some a)
      (right : check_vxlan_configured net x a b.index loopback.index params ≡ ok tt) where
    typed_lem :
        Gives
          (As nl net v kernel away settled here s0)
          (λ l. l ≡ x)
          (Vxlan.typed nl net params b (some x))
    unfolding Vxlan.typed
    typed_lem = rw (is, Vxlan.typed) (Gives-pure x refl)

    kept_lem :
        Gives
          (As nl net v kernel away settled here s0)
          (λ l. l ≡ x)
          (Vxlan.kept_or_replaced nl net params b
            (some x)
            x
            (Vxlan.check nl net x b.index loopback.index params))
    unfolding Vxlan.kept_or_replaced Vxlan.check
    kept_lem = rw (is, Vxlan.check) (rw (right, Vxlan.kept_or_replaced) (Gives-pure x refl))

    after_found :
        (o : Option Link)
        → o ≡ some x
        → Gives
            (As nl net v kernel away settled here s0)
            (λ l. l ≡ x)
            (Vxlan.typed nl net params b o >>= λ l.
              Vxlan.kept_or_replaced nl net params b o l
                (Vxlan.check nl net l b.index loopback.index params))
    after_found o h =
        subst
          (λ o.
            Gives (As nl net v kernel away settled here s0) (λ l. l ≡ x)
              (Vxlan.typed nl net params b o >>= λ l.
                Vxlan.kept_or_replaced nl net params b o l
                  (Vxlan.check nl net l b.index loopback.index params)))
          (sym h)
          (Gives-bind (Vxlan.typed nl net params b (some x)) _ typed_lem (λ l k.
            subst
              (λ l.
                Gives (As nl net v kernel away settled here s0) (λ l. l ≡ x)
                  (Vxlan.kept_or_replaced nl net params b (some x) l
                    (Vxlan.check nl net l b.index loopback.index params)))
              (sym k) kept_lem))

    -- setupVXLan from the search for the VXLAN on, with the loopback.
    abbrev searched : Link → Exec State Link
    searched k = attempt (nl.link_by_name (vxlan_name params.vni)) >>= λ r.
        Vxlan.found_or_created nl net params b r >>= λ o. Vxlan.typed nl net params b o >>= λ l.
        Vxlan.kept_or_replaced nl net params b o l (Vxlan.check nl net l b.index k.index params)

    searched_lem :
        v.link s0 here (vxlan_name params.vni) ≡ some x
        → Gives (As nl net v kernel away settled here s0) (λ l. l ≡ x) (searched loopback)
    unfolding Vxlan.found_or_created
    searched_lem f =
        Gives-bind {P = λ r. r ≡ ok x} (attempt (nl.link_by_name (vxlan_name params.vni))) _
          (Gives-attempt (nl.link_by_name (vxlan_name params.vni))
            ((look_lem nl net v kernel away settled here s0) (vxlan_name params.vni) x f))
          (λ r h.
            Gives-bind {P = λ o. o ≡ some x} (Vxlan.found_or_created nl net params b r) _
              (subst
                (λ r.
                  Gives (As nl net v kernel away settled here s0) (λ o. o ≡ some x)
                    (Vxlan.found_or_created nl net params b r))
                (sym h) (Gives-pure (some x) refl))
              (λ o. after_found o))

    ensure_lem :
        v.link s0 here underlay_loopback ≡ some loopback
        → v.link s0 here (vxlan_name params.vni) ≡ some x
        → Gives
            (As nl net v kernel away settled here s0)
            (λ l. l ≡ x)
            (ensure_vxlan nl net params b)
    unfolding ensure_vxlan
    ensure_lem e f =
        Gives-bind {P = λ l. l ≡ loopback}
          (annotate "failed to get loopback by name" (nl.link_by_name underlay_loopback)) _
          (Gives-annotate _ _
            ((found_lem nl net v kernel away settled here s0) underlay_loopback loopback e))
          (λ k same.
            subst (λ k. Gives (As nl net v kernel away settled here s0) (λ l. l ≡ x) (searched k))
              (sym same) (searched_lem f))

    pub vxlan_lem :
        v.link s0 here underlay_loopback ≡ some loopback
        → v.link s0 here (vxlan_name params.vni) ≡ some x
        → Keeps (As nl net v kernel away settled here s0) (setup_vxlan nl net params b)
    unfolding setup_vxlan
    vxlan_lem e f =
        Keeps-bind (ensure_vxlan nl net params b) _ (Keeps-gives _ (ensure_lem e f)) (λ l.
          Keeps-bind (annotate "failed to set addr_gen_mode to 1" (addr_gen_mode_none nl l)) _
            (Keeps-annotate _ _ ((gen_mode nl net v kernel away settled here s0) l))
            (λ _.
              Keeps-bind (annotate "failed to set neigh suppression" (set_neigh_suppression nl l)) _
                (Keeps-annotate _ _ ((suppressed nl net v kernel away settled here s0) l))
                (λ _. Keeps-replace _ _ ((up nl net v kernel away settled here s0) l))))
