-- ===== src/HostNetwork/Assign.antt =====
-- internal/hostnetwork/properties.go: what assignIPToInterface keeps.
use pierre.Base.{Option, Text}
use pierre.Base.Exec.{lift, replace}
use pierre.Base.Keeps.{Keeps, Keeps-bind, Keeps-lift, Keeps-replace, Keeps-if}
use pierre.Net.{Net}
use pierre.HostNetwork.Netlink.{Netlink, Link, Address}
use pierre.HostNetwork.Properties.{interface_has_ip, assign_ip_to_interface}

module _ {State Ns : Type 0} (nl : Netlink State Ns) (net : Net) (I : State → Type 0)
    (link : Option Link) (address : Text) where
  pub has_ip-Keeps : Keeps I (nl.addr_list link) → Keeps I (interface_has_ip nl net link address)
  unfolding interface_has_ip
  has_ip-Keeps listed =
      Keeps-bind (replace "failed to parse address" (lift (nl.parse_addr address))) _
        (Keeps-replace _ _ (Keeps-lift _))
        (λ _.
          Keeps-bind (replace "failed to list addresses" (nl.addr_list link)) _
            (Keeps-replace _ _ listed) (λ _. Keeps-lift _))

  pub assign-Keeps :
      Keeps I (nl.addr_list link)
      → ((a : Address) → Keeps I (nl.addr_add link a))
      → Keeps I (assign_ip_to_interface nl net link address)
  unfolding assign_ip_to_interface
  assign-Keeps listed added =
      Keeps-bind (interface_has_ip nl net link address) _ (has_ip-Keeps listed) (λ has_ip.
        Keeps-if has_ip _ _ (Keeps-lift _) (
          Keeps-bind (replace "failed to parse address" (lift (nl.parse_addr address))) _
            (Keeps-replace _ _ (Keeps-lift _)) (λ addr. Keeps-replace _ _ (added addr))))
