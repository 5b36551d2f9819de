-- ===== src/Tests/Nic.antt =====
-- The underlay's interface, on a machine where another interface was the underlay's before.
use pierre.Base.{◌≡◌, refl, ℕ, some, Text, codes, eq_text, ok, pos, ◌==◌, if◌then◌else◌, arith, ◌≢◌}
use pierre.Base.Decimal.{itoa}
use pierre.Net.{Net, Ip, v4, v6, net_string}
use pierre.HostNetwork.Params.{UnderlayParams}
use pierre.HostNetwork.Netlink.{Link}
use pierre.HostNetwork.Namespace.{in_namespace}
use pierre.HostNetwork.Properties.{assign_ip_to_interface, interface_has_ip}
use pierre.HostNetwork.Underlay.{setup_underlay}
use pierre.HostNetwork.Underlay.Exchange.{searched, Exchanged, setup_underlay_lem}
use pierre.Tests.Demo.{demo_net}
use pierre.Tests.Rack.{
  Rack, rack, view, seat, move, addresses, rack-Kernel, rack-Lists, rack-NsLaws, rack-Moves,
  rack-Passes,
}

-- The textual form of the special address.
abbrev printed : Ip → Text
printed (v4 n) = if n == 2886729985 then codes "172.16.1.1" else itoa (pos n)
printed (v6 n) = codes "::"

abbrev net : Net
net = record demo_net { ip_string = printed }

abbrev params : UnderlayParams
params = record {
  main_nic = codes "eth1";
  vtep_ip = codes "100.65.0.0/24";
  target_ns = codes "router";
}

-- eth0 is in the router's namespace, and eth1 on the host.
abbrev start : Rack
start = record { eth0_at = 1; eth1_at = 7; current = 7 }

abbrev after : Rack
after = record { eth0_at = 7; eth1_at = 1; current = 7 }

named : (s : Rack) (n : ℕ) → (rack.ns_from_name (codes "router") s).0 ≡ ok n → n ≡ 1
unfolding rack
named s n h = ground arith

differs : ◌≢◌ {A = ℕ} 7 1
differs e = absurd (omega arith)

back : (n : ℕ) (z : Rack) → (rack.set_ns n z).0 ≡ ok tt
unfolding rack
back n z = refl

exchanged : setup_underlay rack net params start ≡ (ok tt, after)
unfolding setup_underlay rack assign_ip_to_interface interface_has_ip in_namespace seat move
    addresses net_string demo_net eq_text itoa
exchanged = refl

setup_underlay_lem_example :
    ((l : Link) × (view.link after 1 (codes "eth1") ≡ some l))
    × ((old : Text) × ((searched rack net view rack-Kernel rack-NsLaws rack-Moves rack-Passes 7 1
            differs back params start).0
          ≡ ok old)
        × Exchanged rack net view rack-Kernel rack-NsLaws rack-Moves rack-Passes 7 1 differs back
            old
            (codes "eth1")
            (searched rack net view rack-Kernel rack-NsLaws rack-Moves rack-Passes 7 1 differs back
              params start).1
            after)
unfolding view
setup_underlay_lem_example =
    setup_underlay_lem rack net view rack-Kernel rack-NsLaws rack-Moves rack-Passes 7 1 differs back
      rack-Lists params start after named refl exchanged
