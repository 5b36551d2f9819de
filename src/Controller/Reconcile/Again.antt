-- ===== src/Controller/Reconcile/Again.antt =====
-- internal/controller/host_config.go: configureInterfaces run again.
use pierre.Base.{◌≡◌, ◌≢◌, Text, List, [], ◌∷◌, All, some, ok}
use pierre.Base.Exec.{annotate, each}
use pierre.Base.Keeps.{Keeps, Keeps-bind, Keeps-annotate, Keeps-lift}
use pierre.HostNetwork.Params.{UnderlayParams, VniParams}
use pierre.HostNetwork.Netlink.{Link}
use pierre.HostNetwork.Kernel.{View, Kernel}
use pierre.HostNetwork.Elsewhere.{Elsewhere}
use pierre.HostNetwork.Namespace.Restores.{NsLaws}
use pierre.HostNetwork.Vxlan.{underlay_loopback}
use pierre.HostNetwork.Underlay.{setup_underlay, old_underlay_interface}
use pierre.HostNetwork.Vni.{setup_vni}
use pierre.HostNetwork.Again.{Settled}
use pierre.HostNetwork.Again.Veth.{Host, Legs}
use pierre.HostNetwork.Again.Router.{Router}
use pierre.HostNetwork.Again.Underlay.{setup_underlay_again}
use pierre.HostNetwork.Again.Vni.{setup_vni_again}
use pierre.Controller.Reconcile.{World, setup_interfaces}

module _ {State Ns : Type 0} (w : World State Ns) (v : View State Ns) (kernel : Kernel w.netlink v)
    (away : Elsewhere w.netlink v) (settled : Settled w.netlink v)
    (laws : NsLaws w.netlink v.current) (home ns : Ns)
    (back : (t : State) → (w.netlink.set_ns home t).0 ≡ ok tt) (s0 : State) where
  -- The interfaces of a VNI are in place.
  pub record InPlace (p : VniParams) : Type 0 where
    pub router : Router w.netlink w.net v kernel away settled ns s0 p
    pub legs : Legs w.netlink w.net v kernel away settled laws home ns back s0 p router.r

  -- The links of all namespaces are those of the state `s0`, and the thread is in its namespace.
  abbrev pub Steady : State → Type 0
  Steady = Host w.netlink w.net v kernel away settled laws home ns back s0

  -- The loopback is there, and the interface with the special address is that of the parameters.
  pub record Underlaid (p : UnderlayParams) : Type 0 where
    pub loopback : Link
    pub there : v.link s0 ns underlay_loopback ≡ some loopback
    pub nic : p.main_nic ≢ []
    pub marked :
        (s : State) (old : Text)
        → Steady s
        → (old_underlay_interface w.netlink w.net ns s).0 ≡ ok old
        → old ≡ p.main_nic

  -- The name is that of the router's namespace.
  abbrev pub Names : Text → Type 0
  Names name = (s : State) (n : Ns) → (w.netlink.ns_from_name name s).0 ≡ ok n → n ≡ ns

  vnis_again :
      (ps : List VniParams)
      → All (λ (p : VniParams). Names p.target_ns × InPlace p) ps
      → Keeps Steady (each (λ p. annotate "failed to setup vni" (setup_vni w.netlink w.net p)) ps)
  unfolding each
  vnis_again [] h = Keeps-lift (ok tt)
  vnis_again (p ∷ ps) ((named, i), h) =
      Keeps-bind (annotate "failed to setup vni" (setup_vni w.netlink w.net p)) _
        (Keeps-annotate _ _ (
          setup_vni_again w.netlink w.net v kernel away settled laws home ns back s0 p i.router
            i.legs named))
        (λ _. vnis_again ps h)

  -- Configuring the interfaces again is harmless: where the underlay and all VNIs are in place, what
  -- configureInterfaces does leaves the links of all namespaces exactly as they are, whether calls
  -- fail or not. In place means that the loopback is there, the interface with the special address is
  -- that of the parameters, and for every VNI the host's leg, its peer in the router's namespace with
  -- the VRF as its master, the VRF, the bridge, and the VXLAN with its settings are there. The kernel
  -- finds what is there and keeps the laws `Kernel`, `Elsewhere` and `NsLaws`, setting a master that
  -- is set already changes nothing, and the thread can always be set back to its namespace.
  pub setup_interfaces_again :
      (underlay : UnderlayParams) (ps : List VniParams)
      → Names underlay.target_ns
      → Underlaid underlay
      → All (λ (p : VniParams). Names p.target_ns × InPlace p) ps
      → Keeps Steady (setup_interfaces w (underlay, ps))
  unfolding setup_interfaces
  setup_interfaces_again underlay ps named u h =
      Keeps-bind (annotate "failed to setup underlay" (setup_underlay w.netlink w.net underlay)) _
        (Keeps-annotate _ _ (
          setup_underlay_again w.netlink w.net v kernel away settled laws home ns back s0 underlay
            u.loopback u.there u.marked u.nic named))
        (λ _. vnis_again ps h)
