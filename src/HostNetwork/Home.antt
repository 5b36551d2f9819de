-- ===== src/HostNetwork/Home.antt =====
-- internal/hostnetwork: SetupUnderlay, SetupVNI and RemoveNonConfiguredVNIs leave the thread in the
-- namespace that it was in.
use pierre.Base.{
  ap, ◌≡◌, ◌∙◌, Option, some, List, [], ◌∷◌, Text, Result, ok, err, eq_text, contains,
}
use pierre.Base.Exec.{Exec}
use pierre.Base.Keeps.{
  Keeps, Keeps-bind, Keeps-lift, Keeps-attempt, Keeps-annotate, Keeps-replace, Keeps-each, Keeps-if,
}
use pierre.Net.{Net}
use pierre.HostNetwork.Params.{UnderlayParams, VniParams}
use pierre.HostNetwork.Netlink.{Netlink, Link}
use pierre.HostNetwork.LinksStay.{LinksStay, setup_veth-Keeps}
use pierre.HostNetwork.Namespace.{in_namespace}
use pierre.HostNetwork.Namespace.Restores.{NsLaws, in_namespace_restores}
use pierre.HostNetwork.Properties.{assign_ip_to_interface, move_absent, move_nic_to_namespace}
use pierre.HostNetwork.Assign.{assign-Keeps}
use pierre.HostNetwork.Veth.{setup_veth}
use pierre.HostNetwork.Vni.{setup_vni}
use pierre.HostNetwork.Underlay.{
  old_underlay_interface, remove_underlay_interface, take_nic, exchange, move_underlay_nic,
  setup_underlay,
}
use pierre.HostNetwork.Cleanup.{is_host_leg, remove_host_leg, remove_non_configured_vnis}

-- The thread is in the namespace `home`.
abbrev pub At : {State Ns : Type 0} → (State → Ns) → Ns → State → Type 0
At current home s = current s ≡ home

module _ {State Ns : Type 0} (nl : Netlink State Ns) (net : Net) (current : State → Ns) (home : Ns)
    (laws : NsLaws nl current) (stay : LinksStay nl (At current home))
    (back : (t : State) → (nl.set_ns home t).0 ≡ ok tt) where
  in_namespace_home :
      {A : Type 0} (ns : Ns) (body : Exec State A)
      → Keeps (At current home) (in_namespace nl ns body)
  in_namespace_home ns body = record {
    after = λ s i.
        in_namespace_restores nl current laws ns body s
          (λ t. ap (λ (n : Ns). (nl.set_ns n t).0) i ∙ back t)
        ∙ i;
  }

  assign_home :
      (link : Option Link) (address : Text)
      → Keeps (At current home) (assign_ip_to_interface nl net link address)
  assign_home link address =
      assign-Keeps nl net (At current home) link address (stay.addr_list link) (stay.addr_add link)

  setup_veth_home : (name : Text) (ns : Ns) → Keeps (At current home) (setup_veth nl name ns)
  setup_veth_home =
      setup_veth-Keeps nl (At current home) stay
        (λ ns index. in_namespace_home ns (nl.link_by_index index))

  -- SetupVNI.
  pub setup_vni_home : (params : VniParams) → Keeps (At current home) (setup_vni nl net params)
  unfolding setup_vni
  setup_vni_home params =
      Keeps-bind _ _ (Keeps-replace _ _ (stay.ns_from_name params.target_ns)) (λ ns.
        Keeps-bind (setup_veth nl params.vrf ns) _ (setup_veth_home params.vrf ns) (λ legs.
          Keeps-bind _ _ (assign_home (some legs.0) params.veth_host_ip) (λ _.
            Keeps-bind _ _ (Keeps-replace _ _ (stay.link_set_up (some legs.0)))
              (λ _. in_namespace_home ns _))))

  move_home :
      (nic : Text) (ns : Ns) (r : Result Link) → Keeps (At current home) (move_absent nl nic ns r)
  unfolding move_absent
  move_home nic ns (ok l) = Keeps-lift _
  move_home nic ns (err e) = Keeps-bind _ _ (Keeps-annotate _ _ (stay.link_by_name nic)) (λ link.
      Keeps-bind _ _ (Keeps-annotate _ _ (stay.addr_list (some link))) (λ addresses.
        Keeps-bind _ _ (Keeps-annotate _ _ (stay.link_set_ns_fd (some link) ns))
          (λ _. in_namespace_home ns _)))

  take_home : (nic : Text) (ns : Ns) → Keeps (At current home) (take_nic nl net nic ns)
  unfolding take_nic move_nic_to_namespace
  take_home nic ns =
      Keeps-bind _ _
        (Keeps-bind _ _ (Keeps-attempt _ (in_namespace_home ns _)) (λ r. move_home nic ns r))
        (λ _. in_namespace_home ns _)

  exchange_home : (old nic : Text) (ns : Ns) → Keeps (At current home) (exchange nl net old nic ns)
  unfolding exchange remove_underlay_interface
  exchange_home [] nic ns = take_home nic ns
  exchange_home (c ∷ old) nic ns = Keeps-if (eq_text (c ∷ old) nic) _ _ (Keeps-lift _) (
      Keeps-bind _ _
        (Keeps-bind _ _ (Keeps-annotate _ _ stay.get_ns) (λ now. in_namespace_home ns _))
        (λ _. take_home nic ns))

  -- SetupUnderlay.
  pub setup_underlay_home :
      (params : UnderlayParams) → Keeps (At current home) (setup_underlay nl net params)
  unfolding setup_underlay move_underlay_nic old_underlay_interface
  setup_underlay_home params =
      Keeps-bind _ _ (Keeps-annotate _ _ (stay.ns_from_name params.target_ns)) (λ ns.
        Keeps-bind _ _ (in_namespace_home ns _) (λ _.
          Keeps-bind _ _ (Keeps-annotate _ _ (in_namespace_home ns _))
            (λ old. exchange_home old params.main_nic ns)))

  remove_leg_home :
      (vrfs : List Text) (l : Link) → Keeps (At current home) (remove_host_leg nl vrfs l)
  unfolding remove_host_leg
  remove_leg_home vrfs l =
      Keeps-if (is_host_leg l) _ _
        (Keeps-if (contains vrfs _) _ _ (Keeps-lift _)
          (Keeps-annotate _ _ (stay.link_del (some l))))
        (Keeps-lift _)

  -- RemoveNonConfiguredVNIs leaves the thread in the namespace that it was in, whether it fails or
  -- not, provided that the thread can always be set back to it, and that no call but netns.Set moves
  -- it.
  pub remove_non_configured_vnis_home :
      (ns : Ns) (params : List VniParams)
      → Keeps (At current home) (remove_non_configured_vnis nl ns params)
  unfolding remove_non_configured_vnis
  remove_non_configured_vnis_home ns params =
      Keeps-bind _ _ (Keeps-annotate _ _ stay.link_list) (λ links.
        Keeps-bind _ _ (Keeps-each _ links (λ l. remove_leg_home _ l))
          (λ _. in_namespace_home ns _))
