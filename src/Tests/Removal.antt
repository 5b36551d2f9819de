-- ===== src/Tests/Removal.antt =====
-- The removal of what is not configured, beside a VNI that is.
use pierre.Base.{◌≡◌, refl, some, [], ◌∷◌, here, codes, pos, arith, eq_text, ok}
use pierre.Base.Decimal.{itoa}
use pierre.HostNetwork.Names.{bridge_name}
use pierre.HostNetwork.Netlink.{Link, bridge}
use pierre.HostNetwork.Namespace.Restores.{NsLaws}
use pierre.HostNetwork.Elsewhere.{Elsewhere}
use pierre.HostNetwork.Joint.{IsUp}
use pierre.HostNetwork.Cleanup.{remove_non_configured_vnis}
use pierre.HostNetwork.Cleanup.Kept.{remove_non_configured_vnis-IsUp}
use pierre.Tests.Again.{red, br100, state}
use pierre.Tests.Listing.{listing, listing-Kernel, listing-Lists}
use pierre.Tests.Setup.{params}
use pierre.Tests.Slots.{Slots, slots, view, look, slots-Elsewhere, slots-NsLaws}

listing-Elsewhere : Elsewhere listing view
listing-Elsewhere = record {
  link_by_index = slots-Elsewhere.link_by_index;
  veth_peer_index = slots-Elsewhere.veth_peer_index;
  ns_from_name = slots-Elsewhere.ns_from_name;
  link_add = slots-Elsewhere.link_add;
  link_del = slots-Elsewhere.link_del;
  link_set_ns_fd = slots-Elsewhere.link_set_ns_fd;
}

listing-NsLaws : NsLaws listing view.current
listing-NsLaws = record {
  get_ok = slots-NsLaws.get_ok;
  get_err = slots-NsLaws.get_err;
  set_ok = slots-NsLaws.set_ok;
  set_err = slots-NsLaws.set_err;
}

back : (s : Slots) → (listing.set_ns 7 s).0 ≡ ok tt
unfolding slots
back s = refl

-- A bridge that belongs to no VNI.
abbrev br200 : Link
br200 = record { index = 7; name = codes "br200"; master_index = 0; kind = bridge }

abbrev stale : Slots
stale = record state { links = br200 ∷ state.links }

at_home : view.current stale ≡ 7
unfolding view
at_home = refl

vrf_there : view.link stale 1 (codes "red") ≡ some red
unfolding view look eq_text
vrf_there = refl

bridge_there : view.link stale 1 (bridge_name (pos 100)) ≡ some br100
unfolding view look eq_text bridge_name itoa
bridge_there = refl

before : IsUp view 1 (codes "red") (pos 100) stale
before = record {
  vrf = record { link = red; there = vrf_there; holds = (1, refl) };
  bridge = record { link = br100; there = bridge_there; holds = refl };
}

remove_non_configured_vnis-IsUp_example :
    IsUp view 1 (codes "red") (pos 100) (remove_non_configured_vnis listing 1 (params ∷ []) stale).1
remove_non_configured_vnis-IsUp_example =
    remove_non_configured_vnis-IsUp listing view listing-Kernel listing-Lists listing-Elsewhere
      listing-NsLaws 7 1 (omega arith) back (params ∷ []) params (here refl) (omega arith) stale
      at_home before
