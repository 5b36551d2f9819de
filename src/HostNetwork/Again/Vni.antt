-- ===== src/HostNetwork/Again/Vni.antt =====
-- internal/hostnetwork/vni.go: SetupVNI run again on a VNI that is in place.
use pierre.Base.{subst, sym, ◌≡◌, Option, some, ok}
use pierre.Base.Exec.{Exec, replace, ◌>>=◌, ◌>>◌}
use pierre.Base.Keeps.{Keeps}
use pierre.Base.Gives.{Gives, Gives-bind, Gives-replace, Gives-keeps, Keeps-gives}
use pierre.Net.{Net}
use pierre.HostNetwork.Params.{VniParams}
use pierre.HostNetwork.Netlink.{Netlink, Link}
use pierre.HostNetwork.Elsewhere.{Elsewhere}
use pierre.HostNetwork.Namespace.{in_namespace}
use pierre.HostNetwork.Namespace.Restores.{NsLaws}
use pierre.HostNetwork.Properties.{assign_ip_to_interface}
use pierre.HostNetwork.Kernel.{View, Kernel}
use pierre.HostNetwork.Veth.{setup_veth}
use pierre.HostNetwork.Vni.{setup_router_side, setup_vni}
use pierre.HostNetwork.Again.{Settled, assigned, up, target_lem}
use pierre.HostNetwork.Again.Router.{Router, router_side-As}
use pierre.HostNetwork.Again.Veth.{Legs, Host, There, Found, inside, veth_lem}

module _ {State Ns : Type 0} (nl : Netlink State Ns) (net : Net) (v : View State Ns)
    (kernel : Kernel nl v) (away : Elsewhere nl v) (settled : Settled nl v)
    (laws : NsLaws nl v.current) (home ns : Ns) (back : (t : State) → (nl.set_ns home t).0 ≡ ok tt)
    (s0 : State) where
  module _ (params : VniParams) (router : Router nl net v kernel away settled ns s0 params)
      (legs : Legs nl net v kernel away settled laws home ns back s0 params router.r) where
    abbrev Home : State → Type 0
    Home = Host nl net v kernel away settled laws home ns back s0

    abbrev Away : State → Type 0
    Away = There nl net v kernel away settled laws home ns back s0

    router_lem :
        (o : Option Link) (pe : Link)
        → o ≡ some pe
        → pe.master_index ≡ router.r.index
        → Keeps Away (setup_router_side nl net params o)
    router_lem o pe e m =
        subst (λ o. Keeps Away (setup_router_side nl net params o)) (sym e)
          (router_side-As nl net v kernel away settled ns s0 params router pe m)

    -- SetupVNI with the router's namespace.
    abbrev rest : Ns → Exec State Unit
    rest n = setup_veth nl params.vrf n >>= λ p.
        assign_ip_to_interface nl net (some p.0) params.veth_host_ip
        >> (replace "could not set link up for host leg" (nl.link_set_up (some p.0))
            >> in_namespace nl n (setup_router_side nl net params p.1))

    rest_lem : Gives Home (λ _. Unit {0}) (rest ns)
    rest_lem =
        Gives-bind
          {P = Found nl net v kernel away settled laws home ns back s0 params router.r legs}
          (setup_veth nl params.vrf ns) _
          (veth_lem nl net v kernel away settled laws home ns back s0 params router.r legs)
          (λ p found.
            Gives-bind (assign_ip_to_interface nl net (some p.0) params.veth_host_ip) _
              (Gives-keeps _
                (assigned nl net v kernel away settled home s0 (some p.0) params.veth_host_ip))
              (λ _ _.
                Gives-bind
                  (replace "could not set link up for host leg" (nl.link_set_up (some p.0))) _
                  (Gives-replace _ _ (Gives-keeps _ (up nl net v kernel away settled home s0 p.0)))
                  (λ _ _.
                    inside nl net v kernel away settled laws home ns back s0 (λ _. Unit {0})
                      (setup_router_side nl net params p.1)
                      (Gives-keeps _ (router_lem p.1 found.1 found.2 found.3)))))

    -- SetupVNI, where the interfaces of the VNI are in place.
    pub setup_vni_again :
        ((s : State) (n : Ns) → (nl.ns_from_name params.target_ns s).0 ≡ ok n → n ≡ ns)
        → Keeps Home (setup_vni nl net params)
    unfolding setup_vni
    setup_vni_again named = Keeps-gives _ (
        Gives-bind {P = λ n. n ≡ ns}
          (replace "Failed to get network namespace" (nl.ns_from_name params.target_ns)) _
          (Gives-replace _ _
            (target_lem nl net v kernel away settled home s0 ns params.target_ns named))
          (λ n e. subst (λ n. Gives Home (λ _. Unit {0}) (rest n)) (sym e) rest_lem))
