-- ===== src/Tests/Again.antt =====
-- The interfaces of a VNI configured again.
use pierre.Base.{
  ◌∙◌, some, ℕ, ◌≡◌, ◌≢◌, refl, [], ◌∷◌, List, codes, ok, err, pos, arith, Text, false, eq_text,
  link_not_found, ok-injective, ap, sym, subst, true, eq_text_iff, Bool-cases, inl, inr,
}
use pierre.Base.Decimal.{itoa, itoa_ℕ}
use pierre.Base.Keeps.{Keeps}
use pierre.Net.{net_string, Net, v4}
use pierre.HostNetwork.Params.{UnderlayParams}
use pierre.HostNetwork.Netlink.{VxlanAttrs, Link, dummy, bridge, veth, vrf, vxlan}
use pierre.HostNetwork.Names.{bridge_name, vxlan_name, veth_legs_for_vrf}
use pierre.HostNetwork.Vxlan.{underlay_loopback, vtep_address, check_vxlan_configured}
use pierre.HostNetwork.Underlay.{underlay_nic_special_addr, old_underlay_interface, special_link}
use pierre.HostNetwork.Properties.{interface_has_ip}
use pierre.HostNetwork.Namespace.{in_namespace}
use pierre.HostNetwork.Again.Veth.{Legs, Peer}
use pierre.HostNetwork.Again.Router.{Router}
use pierre.Controller.Reconcile.{World, setup_interfaces}
use pierre.Controller.Reconcile.Again.{Steady, setup_interfaces_again}
use pierre.Tests.Demo.{network, demo_net, vtep_base}
use pierre.Tests.Joint.{world}
use pierre.Tests.Setup.{params}
use pierre.Tests.Slots.{
  Slots, slots, view, look, peer_at, pe, addresses, slots-Kernel, slots-Elsewhere, slots-NsLaws,
  slots-Settled,
}

-- Every address is printed like the one that marks the underlay's interface.
abbrev net : Net
net = record demo_net { ip_string = λ ip. codes "172.16.1.1" }

abbrev configured : World Slots ℕ
configured = record world { net = net }

abbrev host_leg : Link
host_leg = record {
  index = 3;
  name = codes "hostred";
  master_index = 0;
  kind = veth (codes "pered");
}

abbrev pub red : Link
red = record { index = 4; name = codes "red"; master_index = 0; kind = vrf 1 }

abbrev pub br100 : Link
br100 = record { index = 5; name = codes "br100"; master_index = 4; kind = bridge }

abbrev lound : Link
lound = record { index = 2; name = codes "lound"; master_index = 0; kind = dummy }

abbrev vni100 : Link
vni100 = record {
  index = 6;
  name = codes "vni100";
  master_index = 5;
  kind = vxlan (record {
    vxlan_id = pos 100;
    port = pos 4789;
    learning = false;
    src_addr = some (v4 vtep_base);
    vtep_dev_index = 2;
  });
}

abbrev pub state : Slots
state = record {
  links =
      vni100
      ∷ br100
      ∷ red
      ∷ host_leg
      ∷ lound
      ∷ record { index = 1; name = codes "toswitch"; master_index = 0; kind = dummy }
      ∷ [];
  current = 7;
}

abbrev underlay : UnderlayParams
underlay = record {
  main_nic = codes "toswitch";
  vtep_ip = codes "100.65.0.0/24";
  target_ns = codes "router";
}

pub back : (s : Slots) → (slots.set_ns 7 s).0 ≡ ok tt
unfolding slots
back s = refl

named : (s : Slots) (n : ℕ) → (slots.ns_from_name (codes "router") s).0 ≡ ok n → n ≡ 1
unfolding slots
named s n h = ground arith

abbrev attrs : VxlanAttrs
attrs = record {
  vxlan_id = pos 100;
  port = pos 4789;
  learning = false;
  src_addr = some (v4 vtep_base);
  vtep_dev_index = 2;
}

vrf_there : view.link state 1 (codes "red") ≡ some red
unfolding view look eq_text
vrf_there = refl

bridge_there : view.link state 1 (bridge_name (pos 100)) ≡ some br100
unfolding view look eq_text bridge_name itoa
bridge_there = refl

loopback_there : view.link state 1 underlay_loopback ≡ some lound
unfolding view look eq_text
loopback_there = refl

vxlan_there : view.link state 1 (vxlan_name (pos 100)) ≡ some vni100
unfolding view look eq_text vxlan_name itoa
vxlan_there = refl

right : check_vxlan_configured net vni100 attrs 5 2 params ≡ ok tt
unfolding check_vxlan_configured vtep_address demo_net eq_text
right = refl

abbrev router : Router slots net view slots-Kernel slots-Elsewhere slots-Settled 1 state params
router = record {
  r = red;
  table = 1;
  b = br100;
  loopback = lound;
  x = vni100;
  a = attrs;
  vrf_there = vrf_there;
  is_vrf = refl;
  bridge_there = bridge_there;
  is_bridge = refl;
  loopback_there = loopback_there;
  vxlan_there = vxlan_there;
  is_vxlan = refl;
  right = right;
}

leg_there : view.link state 7 (veth_legs_for_vrf (codes "red")).0 ≡ some host_leg
unfolding view look eq_text veth_legs_for_vrf
leg_there = refl

absent : (s : Slots) → s.current ≡ 7 → (slots.link_by_index 4 s).0 ≡ err link_not_found
unfolding slots peer_at
absent s e = ap (λ c. peer_at c 4) e

inside :
    (s : Slots) (l : Link) → s.current ≡ 1 → (slots.link_by_index 4 s).0 ≡ ok l → l.master_index ≡ 4
unfolding slots peer_at
inside s l e h =
    let same : pe 4 ≡ l = ok-injective (sym (ap (λ c. peer_at c 4) e) ∙ h) in
    ap (λ (k : Link). k.master_index) (sym same)

peer_index : (s : Slots) (j : ℕ) → (slots.veth_peer_index host_leg s).0 ≡ ok j → 4 ≡ j
unfolding slots
peer_index s j h = ok-injective h

at_current : (s : Slots) (n : ℕ) → view.current s ≡ n → s.current ≡ n
unfolding view
at_current s n e = e

abbrev peer_of_red :
    Peer slots net view slots-Kernel slots-Elsewhere slots-Settled slots-NsLaws 7 1 back state red 4
peer_of_red = record {
  absent = λ s i. (link_not_found, absent s (at_current s 7 i.current), refl);
  master = λ s l i h. inside s l (at_current s 1 i.current) h;
}

abbrev legs :
    Legs slots net view slots-Kernel slots-Elsewhere slots-Settled slots-NsLaws 7 1 back state
      params red
legs = record {
  h = host_leg;
  there = leg_there;
  is_veth = refl;
  peer = λ s j i h.
      subst
        (Peer slots net view slots-Kernel slots-Elsewhere slots-Settled slots-NsLaws 7 1 back state
          red)
        (peer_index s j h) peer_of_red;
}

printed : eq_text (net_string net (network 0 32)) underlay_nic_special_addr ≡ true
unfolding eq_text net_string itoa_ℕ
printed = refl

-- The search ends at the interface of the underlay, wherever it stands in the list.
special_lem :
    (ls : List Link) (l : Link) (s : Slots)
    → look (codes "toswitch") ls ≡ some l
    → (special_link slots net ls s).0 ≡ ok (codes "toswitch")
unfolding special_link look slots interface_has_ip addresses
special_lem [] l s h = cc
special_lem (k ∷ ks) l s h = elim (Bool-cases (eq_text k.name (codes "toswitch"))) [
  | inl e ↦ ground (arith, e, printed, eq_text_iff k.name (codes "toswitch"))
  | inr e ↦ ground (arith, e, special_lem ks l s)
]

marked :
    (s : Slots) (old : Text)
    → view.link s 1 (codes "toswitch") ≡ view.link state 1 (codes "toswitch")
    → (old_underlay_interface slots net 1 s).0 ≡ ok old
    → old ≡ codes "toswitch"
unfolding old_underlay_interface in_namespace slots view look eq_text
marked s old i h = ok-injective (sym h ∙ special_lem s.links _ (record s { current = 1 }) i)

differs : codes "toswitch" ≢ []
differs e = cc

setup_interfaces_again_example :
    Keeps
      (Steady configured view slots-Kernel slots-Elsewhere slots-Settled slots-NsLaws 7 1 back
        state)
      (setup_interfaces configured (underlay, params ∷ []))
setup_interfaces_again_example =
    setup_interfaces_again configured view slots-Kernel slots-Elsewhere slots-Settled slots-NsLaws 7
      1 back state underlay (params ∷ []) named
      (record {
        loopback = lound;
        there = loopback_there;
        nic = differs;
        marked = λ s old i h. marked s old (i.links 1 (codes "toswitch")) h;
      })
      ((named, record { router = router; legs = legs }), tt)
