-- ===== src/HostNetwork/Again/Router.antt =====
-- internal/hostnetwork/vni.go: the function that SetupVNI runs in the router's namespace, on links
-- that are in place.
use pierre.Base.{ap, ℕ, subst, sym, ◌∙◌, ◌≡◌, some, ok, true}
use pierre.Base.Exec.{replace}
use pierre.Base.Keeps.{Keeps, Keeps-bind, Keeps-replace}
use pierre.Base.Gives.{Gives-bind, Gives-replace, Gives-keeps, Keeps-gives}
use pierre.Net.{Net}
use pierre.HostNetwork.Params.{VniParams}
use pierre.HostNetwork.Names.{bridge_name, vxlan_name}
use pierre.HostNetwork.Netlink.{Netlink, Link, VxlanAttrs}
use pierre.HostNetwork.Elsewhere.{Elsewhere}
use pierre.HostNetwork.Properties.{assign_ip_to_interface}
use pierre.HostNetwork.Kernel.{View, Kernel}
use pierre.HostNetwork.Vrf.{vrf_table, setup_vrf}
use pierre.HostNetwork.Bridge.{is_bridge, setup_bridge}
use pierre.HostNetwork.Vxlan.{vxlan_attrs, underlay_loopback, check_vxlan_configured, setup_vxlan}
use pierre.HostNetwork.Vni.{setup_router_side}
use pierre.HostNetwork.Again.{Settled, As, quiet, assigned, up}
use pierre.HostNetwork.Again.Links.{vrf_lem, bridge_lem, vxlan_lem}

module _ {State Ns : Type 0} (nl : Netlink State Ns) (net : Net) (v : View State Ns)
    (kernel : Kernel nl v) (away : Elsewhere nl v) (settled : Settled nl v) (here : Ns)
    (s0 : State) where
  -- What is in place of a VNI in the router's namespace.
  pub record Router (params : VniParams) : Type 0 where
    pub r : Link
    pub table : ℕ
    pub b : Link
    pub loopback : Link
    pub x : Link
    pub a : VxlanAttrs
    pub vrf_there : v.link s0 here params.vrf ≡ some r
    pub is_vrf : vrf_table r.kind ≡ some table
    pub bridge_there : v.link s0 here (bridge_name params.vni) ≡ some b
    pub is_bridge : is_bridge b.kind ≡ true
    pub loopback_there : v.link s0 here underlay_loopback ≡ some loopback
    pub vxlan_there : v.link s0 here (vxlan_name params.vni) ≡ some x
    pub is_vxlan : vxlan_attrs x.kind ≡ some a
    pub right : check_vxlan_configured net x a b.index loopback.index params ≡ ok tt

  pub router_side-As :
      (params : VniParams) (router : Router params) (pe : Link)
      → pe.master_index ≡ router.r.index
      → Keeps (As nl net v kernel away settled here s0) (setup_router_side nl net params (some pe))
  unfolding setup_router_side
  router_side-As params router pe e =
      let r = router.r in
      Keeps-bind (assign_ip_to_interface nl net (some pe) params.veth_ns_ip) _
        ((assigned nl net v kernel away settled here s0) (some pe) params.veth_ns_ip)
        (λ _.
          Keeps-bind (replace "could not set link up" (nl.link_set_up (some pe))) _
            (Keeps-replace _ _ ((up nl net v kernel away settled here s0) pe))
            (λ _. Keeps-gives _ (
              Gives-bind (setup_vrf nl params.vrf) _
                ((vrf_lem nl net v kernel away settled here s0) params.vrf r router.table
                  router.is_vrf router.vrf_there)
                (λ l h.
                  Gives-bind
                    (replace "failed to set vrf as master of pe veth"
                      (nl.link_set_master (some pe) l))
                    _
                    (Gives-replace _ _ (
                      Gives-keeps _ (
                        (quiet nl net v kernel away settled here s0)
                          (nl.link_set_master (some pe) l)
                          (λ s. settled.mastered pe l s (e ∙ ap (λ (k : Link). k.index) (sym h))))))
                    (λ _ _.
                      Gives-bind (setup_bridge nl params l) _
                        ((bridge_lem nl net v kernel away settled here s0) params router.b
                          router.is_bridge l router.bridge_there)
                        (λ k h. Gives-keeps _ (
                          subst
                            (λ k.
                              Keeps (As nl net v kernel away settled here s0)
                                (setup_vxlan nl net params k))
                            (sym h)
                            ((vxlan_lem nl net v kernel away settled here s0) params router.b
                              router.loopback router.x router.a router.is_vxlan router.right
                              router.loopback_there router.vxlan_there))))))))
